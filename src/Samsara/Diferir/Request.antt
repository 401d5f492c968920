-- ===== src/Samsara/Diferir/Request.antt =====
-- What `diferirReq` accepts, and that it reads back what `diferirReqBytes` built.
use diarsaba_go.Prelude.{
  ℕ, ◌^◌, ◌≤◌, ◌<◌, ◌≡◌, refl, List, [], length, length-append, All, ◌↔◌, arith,
}
use mathlib.Core.Path.{subst}
use diarsaba_go.Js.Result.{ok, ok-injective, ◌>>=◌}
use diarsaba_go.Js.Number.{ℤ, IsByte, be32, to_uint32, to_uint32-lt}
use diarsaba_go.Js.Entropy.{Entropy}
use diarsaba_go.Common.Value.{Value, part, Converts, Converts-part, Converts-again}
use diarsaba_go.Common.Concat.Laws.{
  done, next, build_opcode_message-Parts, Converts-u32_bytes, Converts-size,
}
use diarsaba_go.Common.Ids.{Identifies, Identifies-Converts}
use diarsaba_go.Common.Cursor.Reading.{
  skip-bind, bytes_slice-bind, u32-bind, ensure_min_length-bind, make_cursor-bind,
}
use diarsaba_go.Common.Cursor.Inversion.{
  make_cursor-inv, ensure_min_length-inv, skip-inv, bytes_slice-inv, u32-inv,
}
use diarsaba_go.Samsara.Diferir.{DiferirReq, diferir_req_bytes, diferir_req, native_opcode}
use diarsaba_go.Samsara.Diferir.Salt.{salt_bytes-Identifies}
use diarsaba_go.Samsara.Diferir.Layout.{InRange, layout, IsDiferirReq}

-- The fixed part has the length that the parser tests for.
length-layout :
    (opcode trailing : List ℕ) (r : DiferirReq)
    → length opcode ≡ 4
    → InRange r
    → 68 ≤ length (layout opcode r trailing)
unfolding be32
length-layout opcode trailing r ho i = omega (arith, length-append {0})

pub diferir_req_accepts :
    {message : Value} (opcode trailing : List ℕ) (r : DiferirReq)
    → length opcode ≡ 4
    → InRange r
    → Converts message (layout opcode r trailing)
    → diferir_req message ≡ ok r
unfolding diferir_req
diferir_req_accepts opcode trailing r ho i m = make_cursor-bind _ m λ c h z.
    ensure_min_length-bind _ 68 _ _ h z (length-layout opcode trailing r ho i) (
      skip-bind _ 4 _ _ _ ho h λ c h. bytes_slice-bind _ 16 _ _ _ i.id h λ c h.
        u32-bind _ _ _ _ i.db_name h λ c h. u32-bind _ _ _ _ i.cell_index h λ c h.
          u32-bind _ _ _ _ i.secret h λ c h. u32-bind _ _ _ _ i.child_genome h λ c h.
            u32-bind _ _ _ _ i.x h λ c h. u32-bind _ _ _ _ i.y h λ c h.
              u32-bind _ _ _ _ i.z h λ c h. bytes_slice-bind _ 16 _ _ _ i.child_salt h λ c h.
                u32-bind _ _ _ _ i.child_secret h λ c h. bytes_slice-bind _ _ _ _ _ refl h λ c h.
                  bytes_slice-bind _ _ _ _ _ refl h
                    λ c h. bytes_slice-bind _ _ _ _ _ refl h λ c h. refl)

diferir_req-IsDiferirReq :
    {message : Value} {xs : List ℕ} {r : DiferirReq}
    → Converts message xs
    → All IsByte xs
    → diferir_req message ≡ ok r
    → IsDiferirReq xs r
unfolding diferir_req
diferir_req-IsDiferirReq {xs = xs} m p run = make_cursor-inv _ m run λ c h run.
    ensure_min_length-inv _ _ _ _ run λ run. skip-inv _ h p 4 _ run λ opcode _ c ho e1 p h run.
      bytes_slice-inv _ h p 16 _ run λ id _ c hi e2 p h run.
        u32-inv _ h p _ run λ w3 _ c f3 e3 p h run. u32-inv _ h p _ run λ w4 _ c f4 e4 p h run.
          u32-inv _ h p _ run λ w5 _ c f5 e5 p h run. u32-inv _ h p _ run λ w6 _ c f6 e6 p h run.
            u32-inv _ h p _ run λ w7 _ c f7 e7 p h run. u32-inv _ h p _ run λ w8 _ c f8 e8 p h run.
              u32-inv _ h p _ run λ w9 _ c f9 e9 p h run.
                bytes_slice-inv _ h p 16 _ run λ salt _ c hs e10 p h run.
                  u32-inv _ h p _ run λ w11 _ c f11 e11 p h run.
                    bytes_slice-inv _ h p w3 _ run λ _ _ c k12 e12 p h run.
                      bytes_slice-inv _ h p w5 _ run λ _ _ c k13 e13 p h run.
                        bytes_slice-inv _ h p w11 _ run λ _ trailing c k14 e14 p h run.
                          subst (IsDiferirReq xs) (ok-injective run) (
                            opcode,
                            trailing,
                            ho,
                            record {
                              id = hi;
                              db_name = rw k12 f3;
                              cell_index = f4;
                              secret = rw k13 f5;
                              child_genome = f6;
                              x = f7;
                              y = f8;
                              z = f9;
                              child_salt = hs;
                              child_secret = rw k14 f11;
                            },
                            rw (
                              e1, e2, e3, e4, e5, e6, e7, e8, e9, e10, e11, e12, e13, e14, k12, k13,
                              k14,
                            ),
                          )

-- Where `message` stands for the bytes `xs`, `diferirReq` returns the fields `r` exactly where `xs`
-- is a request with these fields, whatever its opcode and whatever follows it.
pub diferir_req_iff :
    {message : Value} {xs : List ℕ} (r : DiferirReq)
    → Converts message xs
    → All IsByte xs
    → (diferir_req message ≡ ok r) ↔ IsDiferirReq xs r
diferir_req_iff r m p =
    (diferir_req-IsDiferirReq m p, λ l. diferir_req_accepts l.0 l.1 r l.2 l.3 (rw l.4 at m))

-- `diferirReqBytes` writes the native opcode and the fields, and nothing behind them.
pub diferir_req_bytes-layout :
    {db_name secret child_secret child_salt id : Value}
    {db_name' secret' child_secret' child_salt' raw : List ℕ} {e e₁ e₂ : Entropy}
    (cell_index child_genome x y z : ℤ)
    → Converts db_name db_name'
    → Converts secret secret'
    → Converts child_secret child_secret'
    → Identifies child_salt e child_salt' e₁
    → Identifies id e₁ raw e₂
    → length db_name' < 2 ^ 32
    → length secret' < 2 ^ 32
    → length child_secret' < 2 ^ 32
    → diferir_req_bytes db_name secret child_secret cell_index child_genome x y z id child_salt e
      ≡ ok (
        layout
            (be32 native_opcode)
            (record {
              id = raw;
              db_name = db_name';
              cell_index = to_uint32 cell_index;
              secret = secret';
              child_genome = to_uint32 child_genome;
              x = to_uint32 x;
              y = to_uint32 y;
              z = to_uint32 z;
              child_salt = child_salt';
              child_secret = child_secret';
            })
            [],
        e₂,
      )
unfolding diferir_req_bytes
diferir_req_bytes-layout cell_index child_genome x y z h0 h1 h2 hs hi k0 k1 k2 = rw (
  h0.converted,
  h1.converted,
  h2.converted,
  salt_bytes-Identifies hs,
  hi.normalized,
  build_opcode_message-Parts native_opcode
      (next (Identifies-Converts hi) (
        next (Converts-size h0 k0) (
          next (Converts-u32_bytes cell_index) (
            next (Converts-size h1 k1) (
              next (Converts-u32_bytes child_genome) (
                next (Converts-u32_bytes x) (
                  next (Converts-u32_bytes y) (
                    next (Converts-u32_bytes z) (
                      next (Identifies-Converts hs) (
                        next (Converts-size h2 k2) (
                          next (Converts-again h0)
                            (next (Converts-again h1) (next (Converts-again h2) done)))))))))))))
      (omega arith),
)

-- `diferirReq` reads back from what `diferirReqBytes` built the id, the salt and the bytes of each
-- text argument, if these are shorter than 2 ^ 32, and each number modulo 2 ^ 32. Each argument is
-- one that `toUint8Array` accepts, and the id one that `normalizeId` accepts.
pub diferir_req-diferir_req_bytes :
    {db_name secret child_secret child_salt id : Value}
    {db_name' secret' child_secret' child_salt' raw : List ℕ} {e e₁ e₂ : Entropy}
    (cell_index child_genome x y z : ℤ)
    → Converts db_name db_name'
    → Converts secret secret'
    → Converts child_secret child_secret'
    → Identifies child_salt e child_salt' e₁
    → Identifies id e₁ raw e₂
    → length db_name' < 2 ^ 32
    → length secret' < 2 ^ 32
    → length child_secret' < 2 ^ 32
    → (diferir_req_bytes db_name secret child_secret cell_index child_genome x y z id child_salt e
        >>= λ (frame, _). diferir_req (part frame))
      ≡ ok (record {
        id = raw;
        db_name = db_name';
        cell_index = to_uint32 cell_index;
        secret = secret';
        child_genome = to_uint32 child_genome;
        x = to_uint32 x;
        y = to_uint32 y;
        z = to_uint32 z;
        child_salt = child_salt';
        child_secret = child_secret';
      })
diferir_req-diferir_req_bytes cell_index child_genome x y z h0 h1 h2 hs hi k0 k1 k2 =
    rw (diferir_req_bytes-layout cell_index child_genome x y z h0 h1 h2 hs hi k0 k1 k2) (
      diferir_req_accepts (be32 native_opcode) [] _ (unfold be32 in refl)
        (record {
          id = hi.sixteen;
          db_name = k0;
          cell_index = to_uint32-lt cell_index;
          secret = k1;
          child_genome = to_uint32-lt child_genome;
          x = to_uint32-lt x;
          y = to_uint32-lt y;
          z = to_uint32-lt z;
          child_salt = hs.sixteen;
          child_secret = k2;
        })
        (Converts-part _))
