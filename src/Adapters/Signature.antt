-- ===== src/Adapters/Signature.antt =====
-- internal/adapters/cache.go: the signature of a file. The disk is what it is during one poll.
use tokemon.Prelude.{Bool, not, ◌&&◌, Option, if◌then◌else◌}
use tokemon.Prelude.Int.{ℤ, ltb_ℤ}
use tokemon.Prelude.Texts.{Text}
use tokemon.Adapters.Source.{Bytes}

-- `FileSignature`
pub record FileSignature : Type 0 where
  pub size : ℤ
  pub mod_time : ℤ
  pub sidecar_size : ℤ
  pub sidecar_time : ℤ
  pub sidecar : Bool

abbrev same_int : ℤ → ℤ → Bool
same_int v w = not (ltb_ℤ v w) && not (ltb_ℤ w v)

abbrev same_bool : Bool → Bool → Bool
same_bool a b = if a then b else not b

unfoldable pub signature_eq : FileSignature → FileSignature → Bool
signature_eq a b =
    same_int a.size b.size
    && same_int a.mod_time b.mod_time
    && same_int a.sidecar_size b.sidecar_size
    && same_int a.sidecar_time b.sidecar_time
    && same_bool a.sidecar b.sidecar

-- The signature and the bytes of the file at a path; `none` is a file that cannot be read.
pub record Disk : Type 0 where
  pub signature_of : Text → Option FileSignature
  pub contents_of : Text → Option Bytes
