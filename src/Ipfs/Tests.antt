-- ===== src/Ipfs/Tests.antt =====
-- An upload to the in-memory store and its check.
use hec_mvp.Base.{
  ℕ, ◌<◌, String, ◌≡◌, refl, ◌≢◌, inl, inr, Bool, true, false, ◌&&◌, none, some, List, [], ◌∷◌,
  arith, text_beq, eq_iff, ◌==◌, if◌then◌else◌, Bool-cases, nat_eq, string_eq, length,
}
use hec_mvp.Ipfs.{Kind, Ipfs, cid_of, upload_certificate_to_ipfs, verify_certificate_from_ipfs}
use hec_mvp.Ipfs.Laws.{verdict, verify-upload_certificate}

same_bytes : List ℕ → List ℕ → Bool
same_bytes [] [] = true
same_bytes [] (y ∷ ys) = false
same_bytes (x ∷ xs) [] = false
same_bytes (x ∷ xs) (y ∷ ys) = x == y && same_bytes xs ys

same_bytes_sound : (xs ys : List ℕ) → same_bytes xs ys ≡ true → xs ≡ ys
unfolding same_bytes
same_bytes_sound [] [] e = refl
same_bytes_sound [] (y ∷ ys) e = absurd (let no : false ≡ true = e in cc)
same_bytes_sound (x ∷ xs) [] e = absurd (let no : false ≡ true = e in cc)
same_bytes_sound (x ∷ xs) (y ∷ ys) e = ground (arith, same_bytes_sound xs ys)

abbrev document : List ℕ
document = 1 ∷ 2 ∷ 3 ∷ 4 ∷ 5 ∷ 6 ∷ 7 ∷ 8 ∷ 9 ∷ 10 ∷ 11 ∷ 12 ∷ []

abbrev picture : List ℕ
picture = 9 ∷ []

-- A stand-in for the digest that tells the document from everything else.
digest : List ℕ → String
digest bytes = if same_bytes bytes document then "dddd" else "eeee"

digest-apart : (other : List ℕ) → other ≢ document → digest other ≢ digest document
unfolding digest same_bytes
digest-apart other differs e = elim (Bool-cases (same_bytes other document)) [
  | inl same ↦ differs (same_bytes_sound other document same)
  | inr different ↦
      let clash : text_beq "eeee" "dddd" ≡ true = ground (arith, eq_iff "eeee" "dddd") in cc
]

abbrev store : Ipfs
store = record { kind = Kind.mock; objects = []; pinned = [] }

cids-apart : cid_of digest document ≢ cid_of digest picture
unfolding digest same_bytes cid_of
cids-apart e =
    let clash : text_beq "Qmdddd" "Qmeeee" ≡ true = ground (arith, e, eq_iff "Qmdddd" "Qmeeee") in
    cc

verify-upload_certificate_example :
    let o = upload_certificate_to_ipfs digest document picture store in
    let v =
      verdict (
        verify_certificate_from_ipfs digest
          (digest document)
          (cid_of digest document)
          none
          5
          o.1) in
    (store.kind ≡ Kind.mock → v ≡ some true)
    × (store.kind ≡ Kind.tampered → 10 < length document → v ≡ some false)
    × (store.kind ≡ Kind.missing → v ≡ some false)
verify-upload_certificate_example =
    verify-upload_certificate digest document picture none 5 store cids-apart digest-apart
