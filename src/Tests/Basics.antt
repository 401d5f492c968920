-- ===== src/Tests/Basics.antt =====
-- Runs of the helpers of cards/js/common.js.
use diarsaba_go.Prelude.{◌≡◌, refl, [], ◌∷◌, some, none, true}
use diarsaba_go.Js.Result.{ok, err, error}
use diarsaba_go.Js.Bytes.{contents, data_view, get_uint32}
use diarsaba_go.Js.Number.{word32}
use diarsaba_go.Common.Value.{text, part, Converts-part}
use diarsaba_go.Common.Convert.{hex, read_u32}
use diarsaba_go.Common.Ids.{normalize_id}
use diarsaba_go.Common.Concat.{concat_bytes}
use diarsaba_go.Common.Concat.Laws.{done, next, concat_bytes-Parts}
use diarsaba_go.Common.Genome.{
  genome_detail_from_uint32, genome_uint32_from_detail, truthy, flag_set,
}
use diarsaba_go.Common.Genome.RoundTrip.{genome_uint32_from_detail-genome_detail_from_uint32}
use diarsaba_go.Tests.Fixtures.{id_view, entropy, name_units, name_text, key_bytes}

concat_bytes-Parts_example :
    concat_bytes (text name_units ∷ part key_bytes ∷ part [] ∷ [])
    ≡ ok (195 ∷ 177 ∷ 117 ∷ 107 ∷ 49 ∷ [])
concat_bytes-Parts_example =
    concat_bytes-Parts
      (next name_text (next (Converts-part key_bytes) (next (Converts-part []) done)))

-- The twelfth bit has no flag.
genome_uint32_from_detail-genome_detail_from_uint32_example :
    genome_uint32_from_detail (some (genome_detail_from_uint32 0xe05)) ≡ 0x605
genome_uint32_from_detail-genome_detail_from_uint32_example =
    genome_uint32_from_detail-genome_detail_from_uint32 0xe05

free_read_test : truthy (genome_detail_from_uint32 0x200) "freeRead" ≡ true
unfolding truthy genome_detail_from_uint32 flag_set
free_read_test = refl

no_detail_test : genome_uint32_from_detail none ≡ 0
unfolding genome_uint32_from_detail
no_detail_test = refl

-- "0b" and "ff"
hex_test : hex (part (11 ∷ 255 ∷ [])) ≡ ok (48 ∷ 98 ∷ 102 ∷ 102 ∷ [])
unfolding hex contents
hex_test = refl

window_test : read_u32 id_view 12 ≡ ok 0x0d0e0f10
unfolding read_u32 data_view get_uint32 word32
window_test = refl

short_window_test : read_u32 id_view 13 ≡ err (error "readU32: mensaje demasiado corto")
unfolding read_u32
short_window_test = refl

short_id_test : normalize_id (part key_bytes) entropy ≡ err (error "id debe tener 16 bytes")
unfolding normalize_id
short_id_test = refl
