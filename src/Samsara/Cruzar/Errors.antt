-- ===== src/Samsara/Cruzar/Errors.antt =====
-- What `cruzarReq` can throw.
use diarsaba_go.Prelude.{List, ℕ, All}
use diarsaba_go.Js.Number.{IsByte}
use diarsaba_go.Common.Value.{Value, Converts}
use diarsaba_go.Common.Cursor.Errors.{
  ThrowsShort, make_cursor-ThrowsShort, ensure_min_length-ThrowsShort, skip-ThrowsShort,
  u32-ThrowsShort, bytes_slice-ThrowsShort,
}
use diarsaba_go.Samsara.Cruzar.{cruzar_req}

pub cruzar_req-ThrowsShort :
    {message : Value} {xs : List ℕ}
    → Converts message xs
    → All IsByte xs
    → ThrowsShort (cruzar_req message)
unfolding cruzar_req
cruzar_req-ThrowsShort m p = make_cursor-ThrowsShort _ m λ c h.
    ensure_min_length-ThrowsShort _ _ _ _ λ long. skip-ThrowsShort _ h p 4 _ λ _ c h p.
      bytes_slice-ThrowsShort _ h p _ _ λ _ _ c h p. u32-ThrowsShort _ h p _ λ _ _ c h p.
        u32-ThrowsShort _ h p _ λ _ _ c h p. u32-ThrowsShort _ h p _ λ _ _ c h p.
          u32-ThrowsShort _ h p _ λ _ _ c h p. u32-ThrowsShort _ h p _ λ _ _ c h p.
            u32-ThrowsShort _ h p _ λ _ _ c h p. u32-ThrowsShort _ h p _ λ _ _ c h p.
              u32-ThrowsShort _ h p _ λ _ _ c h p. u32-ThrowsShort _ h p _ λ _ _ c h p.
                bytes_slice-ThrowsShort _ h p _ _ λ _ _ c h p.
                  bytes_slice-ThrowsShort _ h p _ _ λ _ _ c h p.
                    bytes_slice-ThrowsShort _ h p _ _
                      λ _ _ c h p. bytes_slice-ThrowsShort _ h p _ _ λ _ _ c h p. tt
