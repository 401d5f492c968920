-- ===== src/Samsara/Errors.antt =====
-- The nine request parsers of cards/js on any message.
use diarsaba_go.Prelude.{String, ◌≡◌, ◌↔◌, refl, List, ℕ, All}
use diarsaba_go.Js.Result.{error, Result, ok, err}
use diarsaba_go.Js.Number.{IsByte}
use diarsaba_go.Common.Value.{Value, Converts}
use diarsaba_go.Common.Convert.{too_short}
use diarsaba_go.Common.Cursor.Errors.{ThrowsShort}
use diarsaba_go.Samsara.CreateDb.{create_db_req}
use diarsaba_go.Samsara.CreateDb.Errors.{create_db_req-ThrowsShort}
use diarsaba_go.Samsara.CreateDb.Layout.{IsCreateDbReq}
use diarsaba_go.Samsara.CreateDb.Request.{create_db_req_iff}
use diarsaba_go.Samsara.DeleteDb.{delete_db_req}
use diarsaba_go.Samsara.DeleteDb.Errors.{delete_db_req-ThrowsShort}
use diarsaba_go.Samsara.DeleteDb.Layout.{IsDeleteDbReq}
use diarsaba_go.Samsara.DeleteDb.Request.{delete_db_req_iff}
use diarsaba_go.Samsara.Write.{write_req}
use diarsaba_go.Samsara.Write.Errors.{write_req-ThrowsShort}
use diarsaba_go.Samsara.Write.Layout.{IsWriteReq}
use diarsaba_go.Samsara.Write.Request.{write_req_iff}
use diarsaba_go.Samsara.Read.{read_req}
use diarsaba_go.Samsara.Read.Errors.{read_req-ThrowsShort}
use diarsaba_go.Samsara.Read.Layout.{IsReadReq}
use diarsaba_go.Samsara.Read.Request.{read_req_iff}
use diarsaba_go.Samsara.ReadFree.{read_free_req}
use diarsaba_go.Samsara.ReadFree.Errors.{read_free_req-ThrowsShort}
use diarsaba_go.Samsara.ReadFree.Layout.{IsReadFreeReq}
use diarsaba_go.Samsara.ReadFree.Request.{read_free_req_iff}
use diarsaba_go.Samsara.Delete.{delete_req}
use diarsaba_go.Samsara.Delete.Errors.{delete_req-ThrowsShort}
use diarsaba_go.Samsara.Delete.Layout.{IsDeleteReq}
use diarsaba_go.Samsara.Delete.Request.{delete_req_iff}
use diarsaba_go.Samsara.ReadCell.{read_cell_req}
use diarsaba_go.Samsara.ReadCell.Errors.{read_cell_req-ThrowsShort}
use diarsaba_go.Samsara.ReadCell.Layout.{IsReadCellReq}
use diarsaba_go.Samsara.ReadCell.Request.{read_cell_req_iff}
use diarsaba_go.Samsara.Diferir.{diferir_req}
use diarsaba_go.Samsara.Diferir.Errors.{diferir_req-ThrowsShort}
use diarsaba_go.Samsara.Diferir.Layout.{IsDiferirReq}
use diarsaba_go.Samsara.Diferir.Request.{diferir_req_iff}
use diarsaba_go.Samsara.Cruzar.{cruzar_req}
use diarsaba_go.Samsara.Cruzar.Errors.{cruzar_req-ThrowsShort}
use diarsaba_go.Samsara.Cruzar.Layout.{IsCruzarReq}
use diarsaba_go.Samsara.Cruzar.Request.{cruzar_req_iff}

-- A parser returns fields that `P` holds of, or it throws the error of `ensureMinLength` and `P` holds
-- of no fields.
abbrev pub Decides : {A : Type 0} → Result A → (A → Type 0) → Type 0
Decides (ok value) P = P value
Decides {A} (err e) P =
    ((label : String) × (e ≡ error (too_short label))) × ¬ ((value : A) × P value)

decided :
    {A : Type 0} (result : Result A) (P : A → Type 0)
    → ThrowsShort result
    → ((value : A) → (result ≡ ok value) ↔ P value)
    → Decides result P
decided (ok value) P short iff = (iff value).0 refl
decided (err e) P short iff = (short, λ found. let run = (iff found.0).1 found.1 in cc)

-- On any message that `toUint8Array` accepts, each of the nine request parsers returns the fields
-- with which the message's bytes are a request of its kind, or throws the error of `ensureMinLength`
-- where they are none, whatever the fields: the bytes of the buffer outside of the message's window
-- decide nothing.
pub req-Decides :
    (message : Value) (xs : List ℕ)
    → Converts message xs
    → All IsByte xs
    → Decides (create_db_req message) (IsCreateDbReq xs)
      × Decides (delete_db_req message) (IsDeleteDbReq xs)
      × Decides (write_req message) (IsWriteReq xs)
      × Decides (read_req message) (IsReadReq xs)
      × Decides (read_free_req message) (IsReadFreeReq xs)
      × Decides (delete_req message) (IsDeleteReq xs)
      × Decides (read_cell_req message) (IsReadCellReq xs)
      × Decides (diferir_req message) (IsDiferirReq xs)
      × Decides (cruzar_req message) (IsCruzarReq xs)
req-Decides message xs m p = (
  decided (create_db_req message) (IsCreateDbReq xs) (create_db_req-ThrowsShort m p)
      (λ r. create_db_req_iff r m p),
  decided (delete_db_req message) (IsDeleteDbReq xs) (delete_db_req-ThrowsShort m p)
      (λ r. delete_db_req_iff r m p),
  decided (write_req message) (IsWriteReq xs) (write_req-ThrowsShort m p)
      (λ r. write_req_iff r m p),
  decided (read_req message) (IsReadReq xs) (read_req-ThrowsShort m p) (λ r. read_req_iff r m p),
  decided (read_free_req message) (IsReadFreeReq xs) (read_free_req-ThrowsShort m p)
      (λ r. read_free_req_iff r m p),
  decided (delete_req message) (IsDeleteReq xs) (delete_req-ThrowsShort m p)
      (λ r. delete_req_iff r m p),
  decided (read_cell_req message) (IsReadCellReq xs) (read_cell_req-ThrowsShort m p)
      (λ r. read_cell_req_iff r m p),
  decided (diferir_req message) (IsDiferirReq xs) (diferir_req-ThrowsShort m p)
      (λ r. diferir_req_iff r m p),
  decided (cruzar_req message) (IsCruzarReq xs) (cruzar_req-ThrowsShort m p)
      (λ r. cruzar_req_iff r m p),
)
