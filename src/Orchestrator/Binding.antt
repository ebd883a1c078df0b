-- ===== src/Orchestrator/Binding.antt =====
-- Which addresses the API may bind to.
use wiseorder.Prelude.{String, ◌≡◌, ◌↔◌, Bool, true, false, ◌⊎◌, arith, eq_iff}
use wiseorder.Prelude.Text.{is_empty}
use wiseorder.Exec.{ok}
use wiseorder.Orchestrator.{validate_bind_safety}

-- The bind is allowed just for a loopback host, or where remote binds are allowed and the token is not
-- empty.
pub validate_bind_safety-ok :
    (repr : String → String) (host : String) (allow_remote : Bool) (auth_token : String)
    → (validate_bind_safety repr host allow_remote auth_token ≡ ok tt) ↔ (
        ((host ≡ "127.0.0.1") ⊎ ((host ≡ "localhost") ⊎ (host ≡ "::1")))
        ⊎ ((allow_remote ≡ true) × (is_empty auth_token ≡ false)))
unfolding validate_bind_safety
validate_bind_safety-ok repr host allow_remote auth_token =
    ground (arith, eq_iff host "127.0.0.1", eq_iff host "localhost", eq_iff host "::1")
