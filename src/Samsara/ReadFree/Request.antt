-- ===== src/Samsara/ReadFree/Request.antt =====
-- What `readFreeReq` accepts, and that it reads back what `readFreeReqBytes` built.
use diarsaba_go.Prelude.{
  ℕ, ◌^◌, ◌≤◌, ◌<◌, ◌≡◌, refl, List, [], length, length-append, All, ◌↔◌, arith,
}
use mathlib.Core.Path.{subst}
use diarsaba_go.Js.Result.{ok, ok-injective, ◌>>=◌}
use diarsaba_go.Js.Number.{IsByte, be32}
use diarsaba_go.Js.Entropy.{Entropy}
use diarsaba_go.Common.Value.{Value, part, Converts, Converts-part, Converts-again}
use diarsaba_go.Common.Concat.Laws.{done, next, build_opcode_message-Parts, Converts-size}
use diarsaba_go.Common.Ids.{Identifies, Identifies-Converts}
use diarsaba_go.Common.Cursor.Reading.{
  skip-bind, bytes_slice-bind, u32-bind, ensure_min_length-bind, make_cursor-bind,
}
use diarsaba_go.Common.Cursor.Inversion.{
  make_cursor-inv, ensure_min_length-inv, skip-inv, bytes_slice-inv, u32-inv,
}
use diarsaba_go.Samsara.ReadFree.{ReadFreeReq, read_free_req_bytes, read_free_req, native_opcode}
use diarsaba_go.Samsara.ReadFree.Layout.{InRange, layout, IsReadFreeReq}

-- The fixed part has the length that the parser tests for.
length-layout :
    (opcode trailing : List ℕ) (r : ReadFreeReq)
    → length opcode ≡ 4
    → InRange r
    → 28 ≤ length (layout opcode r trailing)
unfolding be32
length-layout opcode trailing r ho i = omega (arith, length-append {0})

pub read_free_req_accepts :
    {message : Value} (opcode trailing : List ℕ) (r : ReadFreeReq)
    → length opcode ≡ 4
    → InRange r
    → Converts message (layout opcode r trailing)
    → read_free_req message ≡ ok r
unfolding read_free_req
read_free_req_accepts opcode trailing r ho i m = make_cursor-bind _ m λ c h z.
    ensure_min_length-bind _ 28 _ _ h z (length-layout opcode trailing r ho i) (
      skip-bind _ 4 _ _ _ ho h λ c h. bytes_slice-bind _ 16 _ _ _ i.id h λ c h.
        u32-bind _ _ _ _ i.db_name h λ c h. u32-bind _ _ _ _ i.key h λ c h.
          bytes_slice-bind _ _ _ _ _ refl h λ c h. bytes_slice-bind _ _ _ _ _ refl h λ c h. refl)

read_free_req-IsReadFreeReq :
    {message : Value} {xs : List ℕ} {r : ReadFreeReq}
    → Converts message xs
    → All IsByte xs
    → read_free_req message ≡ ok r
    → IsReadFreeReq xs r
unfolding read_free_req
read_free_req-IsReadFreeReq {xs = xs} m p run = make_cursor-inv _ m run λ c h run.
    ensure_min_length-inv _ _ _ _ run λ run. skip-inv _ h p 4 _ run λ opcode _ c ho e1 p h run.
      bytes_slice-inv _ h p 16 _ run λ id _ c hi e2 p h run.
        u32-inv _ h p _ run λ w3 _ c f3 e3 p h run. u32-inv _ h p _ run λ w4 _ c f4 e4 p h run.
          bytes_slice-inv _ h p w3 _ run λ _ _ c k5 e5 p h run.
            bytes_slice-inv _ h p w4 _ run λ _ trailing c k6 e6 p h run.
              subst (IsReadFreeReq xs) (ok-injective run) (
                opcode,
                trailing,
                ho,
                record { id = hi; db_name = rw k5 f3; key = rw k6 f4 },
                rw (e1, e2, e3, e4, e5, e6, k5, k6),
              )

-- Where `message` stands for the bytes `xs`, `readFreeReq` returns the fields `r` exactly where `xs`
-- is a request with these fields, whatever its opcode and whatever follows it.
pub read_free_req_iff :
    {message : Value} {xs : List ℕ} (r : ReadFreeReq)
    → Converts message xs
    → All IsByte xs
    → (read_free_req message ≡ ok r) ↔ IsReadFreeReq xs r
read_free_req_iff r m p =
    (read_free_req-IsReadFreeReq m p, λ l. read_free_req_accepts l.0 l.1 r l.2 l.3 (rw l.4 at m))

-- `readFreeReqBytes` writes the native opcode and the fields, and nothing behind them.
pub read_free_req_bytes-layout :
    {db_name key id : Value} {db_name' key' raw : List ℕ} {e e₁ : Entropy}
    → Converts db_name db_name'
    → Converts key key'
    → Identifies id e raw e₁
    → length db_name' < 2 ^ 32
    → length key' < 2 ^ 32
    → read_free_req_bytes db_name key id e
      ≡ ok
          (layout (be32 native_opcode) (record { id = raw; db_name = db_name'; key = key' }) [], e₁)
unfolding read_free_req_bytes
read_free_req_bytes-layout h0 h1 hi k0 k1 = rw (
  h0.converted,
  h1.converted,
  hi.normalized,
  build_opcode_message-Parts native_opcode
      (next (Identifies-Converts hi) (
        next (Converts-size h0 k0)
          (next (Converts-size h1 k1) (next (Converts-again h0) (next (Converts-again h1) done)))))
      (omega arith),
)

-- `readFreeReq` reads back from what `readFreeReqBytes` built the id and the bytes of each text
-- argument, if these are shorter than 2 ^ 32. Each argument is one that `toUint8Array` accepts,
-- and the id one that `normalizeId` accepts.
pub read_free_req-read_free_req_bytes :
    {db_name key id : Value} {db_name' key' raw : List ℕ} {e e₁ : Entropy}
    → Converts db_name db_name'
    → Converts key key'
    → Identifies id e raw e₁
    → length db_name' < 2 ^ 32
    → length key' < 2 ^ 32
    → (read_free_req_bytes db_name key id e >>= λ (frame, _). read_free_req (part frame))
      ≡ ok (record { id = raw; db_name = db_name'; key = key' })
read_free_req-read_free_req_bytes h0 h1 hi k0 k1 = rw (read_free_req_bytes-layout h0 h1 hi k0 k1) (
    read_free_req_accepts (be32 native_opcode) [] _ (unfold be32 in refl)
      (record { id = hi.sixteen; db_name = k0; key = k1 }) (Converts-part _))
