-- ===== src/State/Store/Names.antt =====
-- The names that `ValidSandboxName` of internal/config/validate.go accepts, as keys of the registry.
use muro.Base.{false, Bytes, contains_byte, ok, ◌≡◌, arith}
use muro.Config.Validate.{valid_sandbox_name}
use muro.State.Store.{key}
use muro.State.Store.Laws.{key_injective}

no_slash : (s : Bytes) → valid_sandbox_name s ≡ ok tt → contains_byte s b'/' ≡ false
unfolding valid_sandbox_name
no_slash s h = ground arith

-- Sandboxes whose namespaces were accepted have the same key in the registry only if they have the
-- same namespace and the same name.
pub valid_sandbox_name-key :
    (n m n' m' : Bytes)
    → valid_sandbox_name n ≡ ok tt
    → valid_sandbox_name n' ≡ ok tt
    → key n m ≡ key n' m'
    → (n ≡ n') × (m ≡ m')
valid_sandbox_name-key n m n' m' p q h = key_injective n m n' m' (no_slash n p) (no_slash n' q) h
