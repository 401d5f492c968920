-- ===== src/Samsara/Write/Request.antt =====
-- What `writeReq` accepts, and that it reads back what `writeReqBytes` built.
use diarsaba_go.Prelude.{
  ℕ, ◌^◌, ◌≤◌, ◌<◌, ◌≡◌, refl, List, [], length, length-append, All, ◌↔◌, arith,
}
use mathlib.Core.Path.{subst}
use diarsaba_go.Js.Result.{ok, ok-injective, ◌>>=◌}
use diarsaba_go.Js.Number.{ℤ, IsByte, be32, to_uint32, to_uint32-lt}
use diarsaba_go.Js.Entropy.{Entropy}
use diarsaba_go.Common.Value.{Value, part, Converts, Converts-part, Converts-again}
use diarsaba_go.Common.Concat.Laws.{
  done, next, build_opcode_message-Parts, Converts-u32_bytes, Converts-size,
}
use diarsaba_go.Common.Ids.{Identifies, Identifies-Converts}
use diarsaba_go.Common.Cursor.Reading.{
  skip-bind, bytes_slice-bind, u32-bind, ensure_min_length-bind, make_cursor-bind,
}
use diarsaba_go.Common.Cursor.Inversion.{
  make_cursor-inv, ensure_min_length-inv, skip-inv, bytes_slice-inv, u32-inv,
}
use diarsaba_go.Samsara.Write.{WriteReq, write_req_bytes, write_req, native_opcode}
use diarsaba_go.Samsara.Write.Layout.{InRange, layout, IsWriteReq}

-- The fixed part has the length that the parser tests for.
length-layout :
    (opcode trailing : List ℕ) (r : WriteReq)
    → length opcode ≡ 4
    → InRange r
    → 40 ≤ length (layout opcode r trailing)
unfolding be32
length-layout opcode trailing r ho i = omega (arith, length-append {0})

pub write_req_accepts :
    {message : Value} (opcode trailing : List ℕ) (r : WriteReq)
    → length opcode ≡ 4
    → InRange r
    → Converts message (layout opcode r trailing)
    → write_req message ≡ ok r
unfolding write_req
write_req_accepts opcode trailing r ho i m = make_cursor-bind _ m λ c h z.
    ensure_min_length-bind _ 40 _ _ h z (length-layout opcode trailing r ho i) (
      skip-bind _ 4 _ _ _ ho h λ c h. bytes_slice-bind _ 16 _ _ _ i.id h λ c h.
        u32-bind _ _ _ _ i.cell_index h λ c h. u32-bind _ _ _ _ i.db_name h λ c h.
          u32-bind _ _ _ _ i.key h λ c h. u32-bind _ _ _ _ i.value h λ c h.
            u32-bind _ _ _ _ i.secret h λ c h. bytes_slice-bind _ _ _ _ _ refl h λ c h.
              bytes_slice-bind _ _ _ _ _ refl h λ c h.
                bytes_slice-bind _ _ _ _ _ refl h
                  λ c h. bytes_slice-bind _ _ _ _ _ refl h λ c h. refl)

write_req-IsWriteReq :
    {message : Value} {xs : List ℕ} {r : WriteReq}
    → Converts message xs
    → All IsByte xs
    → write_req message ≡ ok r
    → IsWriteReq xs r
unfolding write_req
write_req-IsWriteReq {xs = xs} m p run = make_cursor-inv _ m run λ c h run.
    ensure_min_length-inv _ _ _ _ run λ run. skip-inv _ h p 4 _ run λ opcode _ c ho e1 p h run.
      bytes_slice-inv _ h p 16 _ run λ id _ c hi e2 p h run.
        u32-inv _ h p _ run λ w3 _ c f3 e3 p h run. u32-inv _ h p _ run λ w4 _ c f4 e4 p h run.
          u32-inv _ h p _ run λ w5 _ c f5 e5 p h run. u32-inv _ h p _ run λ w6 _ c f6 e6 p h run.
            u32-inv _ h p _ run λ w7 _ c f7 e7 p h run.
              bytes_slice-inv _ h p w4 _ run λ _ _ c k8 e8 p h run.
                bytes_slice-inv _ h p w5 _ run λ _ _ c k9 e9 p h run.
                  bytes_slice-inv _ h p w6 _ run λ _ _ c k10 e10 p h run.
                    bytes_slice-inv _ h p w7 _ run λ _ trailing c k11 e11 p h run.
                      subst (IsWriteReq xs) (ok-injective run) (
                        opcode,
                        trailing,
                        ho,
                        record {
                          id = hi;
                          cell_index = f3;
                          db_name = rw k8 f4;
                          key = rw k9 f5;
                          value = rw k10 f6;
                          secret = rw k11 f7;
                        },
                        rw (e1, e2, e3, e4, e5, e6, e7, e8, e9, e10, e11, k8, k9, k10, k11),
                      )

-- Where `message` stands for the bytes `xs`, `writeReq` returns the fields `r` exactly where `xs`
-- is a request with these fields, whatever its opcode and whatever follows it.
pub write_req_iff :
    {message : Value} {xs : List ℕ} (r : WriteReq)
    → Converts message xs
    → All IsByte xs
    → (write_req message ≡ ok r) ↔ IsWriteReq xs r
write_req_iff r m p =
    (write_req-IsWriteReq m p, λ l. write_req_accepts l.0 l.1 r l.2 l.3 (rw l.4 at m))

-- `writeReqBytes` writes the native opcode and the fields, and nothing behind them.
pub write_req_bytes-layout :
    {db_name key value secret id : Value} {db_name' key' value' secret' raw : List ℕ}
    {e e₁ : Entropy} (cell_index : ℤ)
    → Converts db_name db_name'
    → Converts key key'
    → Converts value value'
    → Converts secret secret'
    → Identifies id e raw e₁
    → length db_name' < 2 ^ 32
    → length key' < 2 ^ 32
    → length value' < 2 ^ 32
    → length secret' < 2 ^ 32
    → write_req_bytes cell_index db_name key value secret id e
      ≡ ok (
        layout
            (be32 native_opcode)
            (record {
              id = raw;
              cell_index = to_uint32 cell_index;
              db_name = db_name';
              key = key';
              value = value';
              secret = secret';
            })
            [],
        e₁,
      )
unfolding write_req_bytes
write_req_bytes-layout cell_index h0 h1 h2 h3 hi k0 k1 k2 k3 = rw (
  h0.converted,
  h1.converted,
  h2.converted,
  h3.converted,
  hi.normalized,
  build_opcode_message-Parts native_opcode
      (next (Identifies-Converts hi) (
        next (Converts-u32_bytes cell_index) (
          next (Converts-size h0 k0) (
            next (Converts-size h1 k1) (
              next (Converts-size h2 k2) (
                next (Converts-size h3 k3) (
                  next (Converts-again h0) (
                    next (Converts-again h1)
                      (next (Converts-again h2) (next (Converts-again h3) done))))))))))
      (omega arith),
)

-- `writeReq` reads back from what `writeReqBytes` built the id and the bytes of each text
-- argument, if these are shorter than 2 ^ 32, and each number modulo 2 ^ 32. Each argument is one
-- that `toUint8Array` accepts, and the id one that `normalizeId` accepts.
pub write_req-write_req_bytes :
    {db_name key value secret id : Value} {db_name' key' value' secret' raw : List ℕ}
    {e e₁ : Entropy} (cell_index : ℤ)
    → Converts db_name db_name'
    → Converts key key'
    → Converts value value'
    → Converts secret secret'
    → Identifies id e raw e₁
    → length db_name' < 2 ^ 32
    → length key' < 2 ^ 32
    → length value' < 2 ^ 32
    → length secret' < 2 ^ 32
    → (write_req_bytes cell_index db_name key value secret id e >>= λ (frame, _).
        write_req (part frame))
      ≡ ok (record {
        id = raw;
        cell_index = to_uint32 cell_index;
        db_name = db_name';
        key = key';
        value = value';
        secret = secret';
      })
write_req-write_req_bytes cell_index h0 h1 h2 h3 hi k0 k1 k2 k3 =
    rw (write_req_bytes-layout cell_index h0 h1 h2 h3 hi k0 k1 k2 k3) (
      write_req_accepts (be32 native_opcode) [] _ (unfold be32 in refl)
        (record {
          id = hi.sixteen;
          cell_index = to_uint32-lt cell_index;
          db_name = k0;
          key = k1;
          value = k2;
          secret = k3;
        })
        (Converts-part _))
