-- ===== src/Ipfs/Laws.antt =====
-- What an upload stores, verification finds again; altered or lost content does not verify.
use hec_mvp.Base.{
  ℕ, zero, suc, ◌<◌, String, ◌≡◌, refl, sym, subst, ◌≢◌, Bool, true, false, Option, none, some,
  List, [], ◌∷◌, arith, eq_iff, lt→ltb, is_some, nat_eq, string_eq, length,
}
use hec_mvp.Base.Dict.{Dict, lookup, insert, lookup-insert, lookup-insert_self}
use hec_mvp.Base.Result.{Result, ok, err}
use hec_mvp.Ipfs.{
  Kind, Ipfs, IpfsVerifyResult, IpfsUploadResult, name, alter_at, tamper, download, pin, upload,
  cid_of, upload_certificate_to_ipfs, verify_certificate_from_ipfs,
}

alter_at-ne : (i : ℕ) (bytes : List ℕ) → i < length bytes → alter_at i bytes ≢ bytes
unfolding alter_at
alter_at-ne i [] h = elim h [ ]
alter_at-ne zero (b ∷ bs) h = λ e. ground arith
alter_at-ne (suc i) (b ∷ bs) h = λ e. alter_at-ne i bs (omega arith) (ground arith)

-- A content with more than ten bytes is not what the tampering test double hands out.
tamper-ne : (bytes : List ℕ) → 10 < length bytes → tamper bytes ≢ bytes
unfolding tamper
tamper-ne bytes h = rw (lt→ltb 10 (length bytes) h) (alter_at-ne 10 bytes h)

-- The providers that keep what is uploaded.
abbrev pub Keeps : Kind → Type 0
Keeps Kind.pinata = ⊥
Keeps Kind.local = ⊥
Keeps _ = Unit {0}

pin-Keeps :
    (cid : String) (s : Ipfs)
    → Keeps s.kind
    → (b : Bool) × ((pin cid s).0 ≡ ok b)
      × ((pin cid s).1.objects ≡ s.objects)
      × ((pin cid s).1.kind ≡ s.kind)
unfolding pin
pin-Keeps cid s keeps = (is_some (lookup cid s.objects), ground arith, ground arith, ground arith)

-- What the check says of a content that the provider hands out.
abbrev pub verdict : Result IpfsVerifyResult × Ipfs → Option Bool
verdict (err e, s) = none
verdict (ok r, s) = some r.verified

module _ (sha256 : List ℕ → String) where
  upload-Keeps :
      (bytes : List ℕ) (s : Ipfs)
      → Keeps s.kind
      → upload sha256 bytes s ≡ (
        ok (cid_of sha256 bytes),
        record s { objects = insert (cid_of sha256 bytes) bytes s.objects },
      )
  unfolding upload
  upload-Keeps bytes s keeps = ground arith

  -- The contents after both uploads.
  abbrev both : List ℕ → List ℕ → Ipfs → Dict String (List ℕ)
  both json pdf s = insert (cid_of sha256 pdf) pdf (insert (cid_of sha256 json) json s.objects)

  upload_certificate-both :
      (json pdf : List ℕ) (s : Ipfs)
      → Keeps s.kind
      → let o = upload_certificate_to_ipfs sha256 json pdf s in
        (o.1.objects ≡ both json pdf s) × (o.1.kind ≡ s.kind)
  unfolding upload_certificate_to_ipfs upload pin
  upload_certificate-both json pdf s keeps = ground arith

  pub upload_certificate-result :
      (json pdf : List ℕ) (s : Ipfs)
      → Keeps s.kind
      → (r : IpfsUploadResult) × ((upload_certificate_to_ipfs sha256 json pdf s).0 ≡ ok r)
        × (r.json_cid ≡ cid_of sha256 json)
  unfolding upload_certificate_to_ipfs upload pin
  upload_certificate-result json pdf s keeps = (
    record {
      json_cid = cid_of sha256 json;
      pdf_cid = cid_of sha256 pdf;
      json_size_bytes = length json;
      pdf_size_bytes = length pdf;
      provider = name s.kind;
      pinned = true;
    },
    ground arith,
    refl,
  )

  -- With a provider that keeps what is uploaded, the two documents of a certificate are found again
  -- after they were uploaded, unless both have one CID; every other content is as before.
  pub lookup-upload_certificate :
      (json pdf : List ℕ) (cid : String) (s : Ipfs)
      → Keeps s.kind
      → cid_of sha256 json ≢ cid_of sha256 pdf
      → let o = upload_certificate_to_ipfs sha256 json pdf s in
        (lookup (cid_of sha256 json) o.1.objects ≡ some json)
        × (lookup (cid_of sha256 pdf) o.1.objects ≡ some pdf)
        × (cid ≢ cid_of sha256 json
            → cid ≢ cid_of sha256 pdf
            → lookup cid o.1.objects ≡ lookup cid s.objects)
  lookup-upload_certificate json pdf cid s keeps apart =
      let cj = cid_of sha256 json in
      let cp = cid_of sha256 pdf in
      let stored = (upload_certificate-both json pdf s keeps).0 in
      let mid = insert cj json s.objects in
      (
        ground (
          arith,
          stored,
          lookup-insert cp cj pdf mid,
          lookup-insert_self cj json s.objects,
          eq_iff cp cj,
        ),
        ground (arith, stored, lookup-insert_self cp pdf mid),
        λ nj np. ground (
          arith,
          stored,
          lookup-insert cp cid pdf mid,
          lookup-insert cj cid json s.objects,
          eq_iff cp cid,
          eq_iff cj cid,
        ),
      )

  pub intact_in_memory :
      (json pdf : List ℕ) (pdf_cid : Option String) (now : ℕ) (s : Ipfs)
      → cid_of sha256 json ≢ cid_of sha256 pdf
      → s.kind ≡ Kind.mock
      → verdict (
          verify_certificate_from_ipfs sha256
            (sha256 json)
            (cid_of sha256 json)
            pdf_cid
            now
            (upload_certificate_to_ipfs sha256 json pdf s).1)
        ≡ some true
  unfolding verify_certificate_from_ipfs download
  intact_in_memory json pdf pdf_cid now s apart k =
      let keeps : Keeps s.kind = subst Keeps (sym k) tt in
      ground (
        arith,
        (lookup-upload_certificate json pdf "" s keeps apart).0,
        (upload_certificate-both json pdf s keeps).1,
        eq_iff (sha256 json) (sha256 json),
      )

  -- After the upload of a certificate whose documents have two CIDs, the check against the digest of
  -- its JSON document succeeds with the in-memory provider. It fails with the tampering provider if
  -- the document has more than ten bytes and no other content has its digest, and with the provider
  -- that loses content always.
  pub verify-upload_certificate :
      (json pdf : List ℕ) (pdf_cid : Option String) (now : ℕ) (s : Ipfs)
      → cid_of sha256 json ≢ cid_of sha256 pdf
      → ((other : List ℕ) → other ≢ json → sha256 other ≢ sha256 json)
      → let o = upload_certificate_to_ipfs sha256 json pdf s in
        let v = verdict (
          verify_certificate_from_ipfs sha256 (sha256 json) (cid_of sha256 json) pdf_cid now o.1) in
        (s.kind ≡ Kind.mock → v ≡ some true)
        × (s.kind ≡ Kind.tampered → 10 < length json → v ≡ some false)
        × (s.kind ≡ Kind.missing → v ≡ some false)
  unfolding verify_certificate_from_ipfs download
  verify-upload_certificate json pdf pdf_cid now s apart collision_free =
      let o = upload_certificate_to_ipfs sha256 json pdf s in
      (
        intact_in_memory json pdf pdf_cid now s apart,
        λ k long.
            let keeps : Keeps s.kind = subst Keeps (sym k) tt in
            ground (
              arith,
              (lookup-upload_certificate json pdf "" s keeps apart).0,
              (upload_certificate-both json pdf s keeps).1,
              eq_iff (sha256 (tamper json)) (sha256 json),
              collision_free (tamper json) (tamper-ne json long),
            ),
        λ k.
            let keeps : Keeps s.kind = subst Keeps (sym k) tt in
            ground (arith, (upload_certificate-both json pdf s keeps).1),
      )
