-- ===== src/World.antt =====
-- The state that the services share: the database of a session, the module's blockchain provider
-- (app/blockchain.py) and its IPFS provider (app/ipfs_service.py). A rollback restores the first
-- and not the other two. `Host` is what the services take from Python's libraries.
use hec_mvp.Base.{ℕ, String, List, nat_eq, string_eq}
use hec_mvp.Base.Result.{Action}
use hec_mvp.Ledger.{Db}
use hec_mvp.Chain.Provider.{Provider}
use hec_mvp.Ipfs.{Ipfs}

pub record World : Type 0 where
  pub db : Db
  pub provider : Provider
  pub ipfs : Ipfs

-- hashlib's hex digest of bytes, a text's UTF-8 bytes, and the float sum of decimals read back as a
-- decimal.
pub record Host : Type 0 where
  pub sha256 : List ℕ → String
  pub utf8 : String → List ℕ
  pub float_sum : List ℕ → ℕ

-- `hashlib.sha256(text.encode("utf-8")).hexdigest()`
abbrev pub text_digest : Host → String → String
text_digest host text = host.sha256 (host.utf8 text)

-- A call that works on one part of the state.
abbrev pub on_db : {A : Type 0} → Action Db A → Action World A
on_db m w = let (r, d) = m w.db in (r, record w { db = d })

abbrev pub on_chain : {A : Type 0} → Action Provider A → Action World A
on_chain m w = let (r, p) = m w.provider in (r, record w { provider = p })

abbrev pub on_ipfs : {A : Type 0} → Action Ipfs A → Action World A
on_ipfs m w = let (r, s) = m w.ipfs in (r, record w { ipfs = s })
