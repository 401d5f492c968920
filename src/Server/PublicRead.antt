-- ===== src/Server/PublicRead.antt =====
-- The public host of server.go: what a reader is shown, and what reaches Samsara.
use diarsaba_go.Prelude.{
  ℕ, ◌+◌, ◌*◌, ◌^◌, ◌≤◌, ◌≡◌, ◌≢◌, ◌↔◌, ◌⊎◌, inl, inr, refl, ap, sym, ◌∙◌, List, [], ◌∷◌, ◌++◌,
  length, take, drop, true, Option, none, some, ltb, ◌==◌, ◌||◌, Bool-cases, ltb→lt, ==_iff,
  length-take, length-drop, length-append, take-append-drop, drop-drop, get_or-append, arith,
}
use mathlib.Core.Path.{subst}
use diarsaba_go.Js.Number.{be32, word32}
use diarsaba_go.Go.{same_text}
use diarsaba_go.Http.{
  Method, get, post, other, Request, split_public_path, strip_port, normalize_host_name,
}
use diarsaba_go.Server.Paths.Names.{Names, split_public_path_iff}
use diarsaba_go.Server.{
  Packages, State, Settings, code_of, bytes_of, read_status, read_reply, read_by, public_read,
  handle_public_read, handle_server,
}

module _ {S : Type 0} (p : Packages S) where
  -- The answer of Samsara to the READ_FREE request for a key.
  abbrev pub answer_of : List ℕ → List ℕ → S → List ℕ
  answer_of db_name key store =
      bytes_of (p.process_request (p.read_free_req_bytes db_name key) store).0

  read_status_not_200 : (code : ℕ) → read_status p code ≢ 200
  unfolding read_status
  read_status_not_200 code =
      elim (Bool-cases (code == p.database_not_found || code == p.membrane_not_found)) [
        | inl e ↦ rw e (λ h. absurd (omega arith))
        | inr e ↦ rw e (λ h. absurd (omega arith))
      ]

  -- A response of Samsara that the public host shows, with what it shows of it: an id, the code 1, and
  -- the value.
  abbrev pub Shows : List ℕ → List ℕ → Type 0
  Shows response value = (id : List ℕ) × (length id ≡ 16) × (response ≡ id ++ (be32 1 ++ value))

  code_of-one : (id rest : List ℕ) → length id ≡ 16 → code_of (id ++ (be32 1 ++ rest)) ≡ 1
  unfolding code_of be32 word32
  code_of-one id rest h =
      rw
        (
          get_or-append 16 0 id (be32 1 ++ rest) 0 h,
          get_or-append 16 1 id (be32 1 ++ rest) 0 h,
          get_or-append 16 2 id (be32 1 ++ rest) 0 h,
          get_or-append 16 3 id (be32 1 ++ rest) 0 h,
        )
        refl

  word_one :
      (id word rest : List ℕ)
      → length id ≡ 16
      → length word ≡ 4
      → code_of (id ++ (word ++ rest)) ≡ 1
      → word ≡ be32 1
  unfolding code_of be32 word32
  word_one id [] rest h k e = absurd (omega arith)
  word_one id (a ∷ []) rest h k e = absurd (omega arith)
  word_one id (a ∷ b ∷ []) rest h k e = absurd (omega arith)
  word_one id (a ∷ b ∷ c ∷ []) rest h k e = absurd (omega arith)
  word_one id (a ∷ b ∷ c ∷ d ∷ []) rest h k e =
      let word = a ∷ b ∷ c ∷ d ∷ rest in
      let sum : a * 2 ^ 24 + b * 2 ^ 16 + c * 2 ^ 8 + d ≡ 1 =
        rw
          (
            get_or-append 16 0 id word 0 h,
            get_or-append 16 1 id word 0 h,
            get_or-append 16 2 id word 0 h,
            get_or-append 16 3 id word 0 h,
          )
          at e in
      let a0 : a ≡ 0 = omega arith in
      let b0 : b ≡ 0 = omega arith in
      let c0 : c ≡ 0 = omega arith in let d1 : d ≡ 1 = omega arith in rw (a0, b0, c0, d1) refl
  word_one id (a ∷ b ∷ c ∷ d ∷ x ∷ word) rest h k e = absurd (omega arith)

  -- An id, a word and the rest.
  cut_response :
      (response : List ℕ)
      → 20 ≤ length response
      → response ≡ take 16 response ++ (take 4 (drop 16 response) ++ drop 20 response)
  cut_response response h =
      sym (take-append-drop 16 response)
      ∙ ap (λ t. take 16 response ++ t)
          (sym (take-append-drop 4 (drop 16 response))
            ∙ ap (λ t. take 4 (drop 16 response) ++ t) (drop-drop 4 16 response))

  response_read :
      (response : List ℕ)
      → 20 ≤ length response
      → code_of response ≡ 1
      → (length (take 16 response) ≡ 16)
        × (response ≡ take 16 response ++ (be32 1 ++ drop 20 response))
  response_read response h e =
      let id = take 16 response in
      let word = take 4 (drop 16 response) in
      let sixteen : length id ≡ 16 = omega (arith, length-take 16 response) in
      let four : length word ≡ 4 =
        omega (arith, length-take 4 (drop 16 response), length-drop 16 response) in
      let whole = cut_response response h in
      let one : word ≡ be32 1 =
        word_one id word (drop 20 response) sixteen four (sym (ap code_of whole) ∙ e) in
      (sixteen, whole ∙ ap (λ w. id ++ (w ++ drop 20 response)) one)

  Shows-long : (response : List ℕ) (value : List ℕ) → Shows response value → 20 ≤ length response
  unfolding be32
  Shows-long response value (id, sixteen, same) =
      rw same (omega (arith, length-append id (be32 1 ++ value), sixteen))

  Shows-code : (response : List ℕ) (value : List ℕ) → Shows response value → code_of response ≡ 1
  Shows-code response value (id, sixteen, same) = ap code_of same ∙ code_of-one id value sixteen

  read_reply-Shows :
      (response : List ℕ)
      → ((read_reply p response).status ≡ 200) ↔ Shows response (read_reply p response).body
  unfolding read_reply
  read_reply-Shows response = elim (Bool-cases (ltb (length response) 20)) [
    | inl e ↦
        let short = ltb→lt (length response) 20 e in
        rw e (
          λ h. absurd (omega arith),
          λ h. absurd (let long : 20 ≤ length response = Shows-long response _ h in omega arith),
        )
    | inr e ↦
        let long : 20 ≤ length response = ground arith in
        elim (Bool-cases (code_of response == 1)) [
          | inl f ↦
              let one = (==_iff (code_of response) 1).0 f in
              let read = response_read response long one in
              rw (e, f) (λ h. (take 16 response, read.0, read.1), λ h. refl)
          | inr f ↦
              rw (e, f)
                (
                  λ h. absurd (read_status_not_200 (code_of response) h),
                  λ h. absurd (
                      let g : (code_of response == 1) ≡ true =
                        (==_iff (code_of response) 1).1 (Shows-code response _ h) in
                      cc),
                )
        ]
  ]

  public_read-status :
      (split : Option (List ℕ × List ℕ)) (store : S)
      → let shown = (public_read p split store).0 in
        (shown.status ≡ 200) ↔ (
          (db_name : List ℕ) × (key : List ℕ) × (split ≡ some (db_name, key))
          × Shows (answer_of db_name key store) shown.body)
  unfolding public_read
  public_read-status none store = (λ h. absurd (omega arith), λ h. cc)
  public_read-status (some (db_name, key)) store =
      let answer = answer_of db_name key store in
      let shown = read_reply-Shows answer in
      (
        λ h. (db_name, key, refl, shown.0 h),
        λ h.
            let same_db : db_name ≡ h.0 = cc in
            let same_key : key ≡ h.1 = cc in
            let same : answer ≡ answer_of h.0 h.1 store = rw (same_db, same_key) refl in
            shown.1 (subst (λ a. Shows a (read_reply p answer).body) (sym same) h.3),
      )

  read_by-status :
      (method : Method) (r : Request) (st : State S)
      → let shown = (read_by p method r st).0 in
        (shown.status ≡ 200) ↔ (
          (method ≡ get)
          × ((db_name : List ℕ) × (key : List ℕ) × Names p.unicode r.path db_name key
              × Shows (answer_of db_name key st.store) shown.body))
  unfolding read_by
  read_by-status get r st =
      let shown = public_read-status (split_public_path p.unicode r.path) st.store in
      let named = split_public_path_iff p.unicode r.path in
      (
        λ h. let s = shown.0 h in (refl, (s.0, s.1, (named s.0 s.1).0 s.2, s.3)),
        λ h. let s = h.1 in shown.1 (s.0, s.1, (named s.0 s.1).1 s.2, s.3),
      )
  read_by-status post r st = (λ h. absurd (omega arith), λ h. cc)
  read_by-status other r st = (λ h. absurd (omega arith), λ h. cc)

  -- A request to the public host is answered with the status 200 exactly where it is a GET request,
  -- its path names a database and a key, and Samsara answers the READ_FREE request for them with an
  -- id of sixteen bytes, the code 1, and then the very bytes that the body shows. Any other request
  -- is answered with another status.
  pub handle_public_read-status :
      (r : Request) (st : State S)
      → let shown = (handle_public_read p r st).0 in
        (shown.status ≡ 200) ↔ (
          (r.method ≡ get)
          × ((db_name : List ℕ) × (key : List ℕ) × Names p.unicode r.path db_name key
              × Shows (answer_of db_name key st.store) shown.body))
  unfolding handle_public_read
  handle_public_read-status r st = read_by-status r.method r st

  -- What the store may have become.
  abbrev pub OnlyRead : Request → S → S → Type 0
  OnlyRead r before after =
      (after ≡ before)
      ⊎ ((db_name : List ℕ) × (key : List ℕ) × (split_public_path p.unicode r.path
            ≡ some (db_name, key))
          × (after ≡ (p.process_request (p.read_free_req_bytes db_name key) before).1))

  public_read-OnlyRead :
      (r : Request) (split : Option (List ℕ × List ℕ)) (store : S)
      → split_public_path p.unicode r.path ≡ split
      → OnlyRead r store (public_read p split store).1
  unfolding public_read
  public_read-OnlyRead r none store e = inl refl
  public_read-OnlyRead r (some (db_name, key)) store e = inr (db_name, key, e, refl)

  pub read_by-OnlyRead :
      (method : Method) (r : Request) (st : State S)
      → OnlyRead r st.store (read_by p method r st).1.store
        × ((read_by p method r st).1.bridge ≡ st.bridge)
  unfolding read_by
  read_by-OnlyRead get r st =
      (public_read-OnlyRead r (split_public_path p.unicode r.path) st.store refl, refl)
  read_by-OnlyRead post r st = (inl refl, refl)
  read_by-OnlyRead other r st = (inl refl, refl)

  -- A request to the public host changes nothing in the bridge, and reaches Samsara at most as one
  -- READ_FREE request for the database and the key of its path, whatever its body holds.
  pub handle_server-OnlyRead :
      (settings : Settings) (channel : ℕ) (r : Request) (st : State S)
      → same_text (normalize_host_name p.unicode (strip_port r.host)) settings.public_host ≡ true
      → let after = (handle_server p settings channel r st).1 in
        OnlyRead r st.store after.store × (after.bridge ≡ st.bridge)
  unfolding handle_server handle_public_read
  handle_server-OnlyRead settings channel r st public = rw public (read_by-OnlyRead r.method r st)
