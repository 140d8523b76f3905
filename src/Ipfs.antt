-- ===== src/Ipfs.antt =====
-- app/ipfs_service.py: the content store with its providers, uploads and the check of integrity.
-- `sha256` stands for hashlib's hex digest of bytes. A JSON document enters as the bytes that
-- `json.dumps` makes of it. Parsing the bytes again for the response is not modelled, nor are the
-- file names, which no provider reads.
pub mod Tests
pub mod Laws
use Prim.Native.String.{◌++◌ as text_append, slice}
use hec_mvp.Base.{
  ℕ, zero, suc, ◌+◌, ◌-◌, ◌/◌, ◌%◌, String, Bool, true, false, not, Option, none, some, List, [],
  ◌∷◌, text_beq, ltb, if◌then◌else◌, nat_eq, string_eq, length,
}
use hec_mvp.Base.Dict.{Dict, lookup, contains, insert}
use hec_mvp.Base.Result.{Exn, Result, ok, err, Action, raise, gets, ◌>>=◌, ◌>>◌}

-- The classes of providers: three share the store in memory, two are stubs that raise.
pub data Kind : Type 0 where
  mock tampered missing pinata local : Kind

-- The provider in use: its class, and the fields of a `MockIPFSProvider`.
pub record Ipfs : Type 0 where
  pub kind : Kind
  pub objects : Dict String (List ℕ)
  pub pinned : List String

-- The property `name`; the two test doubles inherit theirs.
pub name : Kind → String
name Kind.pinata = "pinata"
name Kind.local = "local"
name _ = "mock"

-- The byte at index 10 is raised by one.
pub alter_at : ℕ → List ℕ → List ℕ
alter_at i [] = []
alter_at zero (b ∷ bs) = ((b + 1) % 256) ∷ bs
alter_at (suc i) (b ∷ bs) = b ∷ alter_at i bs

-- `if data and len(data) > 10`
pub tamper : List ℕ → List ℕ
tamper bytes = if ltb 10 (length bytes) then alter_at 10 bytes else bytes

download_as : Kind → Option (List ℕ) → Result (Option (List ℕ))
download_as Kind.mock stored = ok stored
download_as Kind.tampered none = ok none
download_as Kind.tampered (some bytes) = ok (some (tamper bytes))
download_as Kind.missing stored = ok none
download_as Kind.pinata stored = err Exn.not_implemented
download_as Kind.local stored = err Exn.not_implemented

pub download : String → Action Ipfs (Option (List ℕ))
unfolding download_as
download cid s = (download_as s.kind (lookup cid s.objects), s)

pin_as : Kind → String → Action Ipfs Bool
pin_as Kind.pinata cid s = (err Exn.not_implemented, s)
pin_as Kind.local cid s = (err Exn.not_implemented, s)
pin_as _ cid s =
    if contains cid s.objects
    then (ok true, record s { pinned = cid ∷ s.pinned })
    else (ok false, s)

unfoldable pub pin : String → Action Ipfs Bool
unfolding pin_as
pin cid s = pin_as s.kind cid s

pub clear : Ipfs → Ipfs
clear s = record s { objects = []; pinned = [] }

pub store_size : Ipfs → ℕ
store_size s = length s.objects

-- The functions over the module's global provider.
pub set_ipfs_provider : Ipfs → Ipfs → Ipfs
set_ipfs_provider provider current = provider

pub reset_ipfs_provider : Ipfs → Ipfs
reset_ipfs_provider current = record { kind = Kind.mock; objects = []; pinned = [] }

pub record IpfsUploadResult : Type 0 where
  pub json_cid : String
  pub pdf_cid : String
  pub json_size_bytes : ℕ
  pub pdf_size_bytes : ℕ
  pub provider : String
  pub pinned : Bool

pub record IpfsJsonUploadResult : Type 0 where
  pub json_cid : String
  pub json_size_bytes : ℕ
  pub provider : String
  pub pinned : Bool

pub record IpfsVerifyResult : Type 0 where
  pub verified : Bool
  pub stored_hash : String
  pub recalculated_hash : String
  pub json_cid : String
  pub pdf_cid : Option String
  pub json_size_bytes : ℕ
  pub ipfs_provider : String
  pub verified_at : ℕ

module _ (sha256 : List ℕ → String) where
  -- `Qm` and the first 44 digits of the content's digest.
  unfoldable pub cid_of : List ℕ → String
  cid_of bytes = text_append "Qm" (slice (sha256 bytes) 0 44)

  upload_as : Kind → List ℕ → Action Ipfs String
  upload_as Kind.pinata bytes s = (err Exn.not_implemented, s)
  upload_as Kind.local bytes s = (err Exn.not_implemented, s)
  upload_as _ bytes s =
      (ok (cid_of bytes), record s { objects = insert (cid_of bytes) bytes s.objects })

  unfoldable pub upload : List ℕ → Action Ipfs String
  unfolding upload_as
  upload bytes s = upload_as s.kind bytes s

  unfoldable pub upload_certificate_to_ipfs : List ℕ → List ℕ → Action Ipfs IpfsUploadResult
  upload_certificate_to_ipfs json_bytes pdf_bytes = do
    json_cid ← upload json_bytes
    pin json_cid
    pdf_cid ← upload pdf_bytes
    pin pdf_cid
    gets λ s. record {
      json_cid = json_cid;
      pdf_cid = pdf_cid;
      json_size_bytes = length json_bytes;
      pdf_size_bytes = length pdf_bytes;
      provider = name s.kind;
      pinned = true;
    }

  pub upload_json_document_to_ipfs : List ℕ → Action Ipfs IpfsJsonUploadResult
  upload_json_document_to_ipfs json_bytes = do
    json_cid ← upload json_bytes
    pinned ← pin json_cid
    gets λ s. record {
      json_cid = json_cid;
      json_size_bytes = length json_bytes;
      provider = name s.kind;
      pinned = pinned;
    }

  checked : String → String → Option String → ℕ → Option (List ℕ) → Ipfs → IpfsVerifyResult
  checked stored_hash json_cid pdf_cid now none s = record {
    verified = false;
    stored_hash = stored_hash;
    recalculated_hash = "";
    json_cid = json_cid;
    pdf_cid = pdf_cid;
    json_size_bytes = 0;
    ipfs_provider = name s.kind;
    verified_at = now;
  }
  checked stored_hash json_cid pdf_cid now (some bytes) s = record {
    verified = text_beq (sha256 bytes) stored_hash;
    stored_hash = stored_hash;
    recalculated_hash = sha256 bytes;
    json_cid = json_cid;
    pdf_cid = pdf_cid;
    json_size_bytes = length bytes;
    ipfs_provider = name s.kind;
    verified_at = now;
  }

  pub verify_certificate_from_ipfs :
      String → String → Option String → ℕ → Action Ipfs IpfsVerifyResult
  unfolding checked
  verify_certificate_from_ipfs stored_hash json_cid pdf_cid now = do
    json_bytes ← download json_cid
    gets (checked stored_hash json_cid pdf_cid now json_bytes)
