-- ===== src/Store/Host.antt =====
-- What the object store takes from outside the repository: hashlib's SHA-256 as a hex digest,
-- zlib, the codecs that read UTF-8 back, the clock, random bits and the environment.
use re_git.Base.{ℕ, Bool, Option, Text}
use re_git.Store.Monad.{Bytes}

pub record Host : Type 0 where
  pub sha256 : Bytes → Text
  pub compress : Bytes → Bytes
  -- `none` is `zlib.error`
  pub decompress : Bytes → Option Bytes
  -- bytes.decode("utf-8"); `none` is `UnicodeDecodeError`
  pub decode : Bytes → Option Text
  -- bytes.decode("utf-8", "replace")
  pub decode_replace : Bytes → Text
  -- the n-th reading of the clock, as `_now_iso` writes it
  pub now_iso : ℕ → Text
  -- the n-th reading of the clock in milliseconds, and the n-th draw of 80 random bits
  pub draw : ℕ → ℕ × ℕ
  -- GR_AUTHOR_DATE
  pub author_date_env : Option Text
  -- GR_VERIFY_ON_READ == "1"
  pub verify_on_read : Bool
