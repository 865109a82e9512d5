-- ===== src/Extern/Digest.antt =====
-- boost::uuids::detail::sha1: the five words of the digest of the bytes that were fed in.
use svitock.Base.{ℕ, ◌<◌, ◌^◌, Bytes}

pub record Digest : Type 0 where
  pub d0 : ℕ
  pub d1 : ℕ
  pub d2 : ℕ
  pub d3 : ℕ
  pub d4 : ℕ

-- Each word is a 32-bit `unsigned int`.
pub record IsDigest (d : Digest) : Type 0 where
  pub d0-lt : d.d0 < 2 ^ 32
  pub d1-lt : d.d1 < 2 ^ 32
  pub d2-lt : d.d2 < 2 ^ 32
  pub d3-lt : d.d3 < 2 ^ 32
  pub d4-lt : d.d4 < 2 ^ 32

-- `process_bytes` in one or several calls sees the bytes one after the other.
abbrev pub Sha1 : Type 0
Sha1 = Bytes → Digest
