-- ===== src/Ui/Api/Bind.antt =====
-- Which addresses the dashboard binds (`main` of ui/src/main.rs).
use fips_shield.Base.{ℕ, ◌≡◌, Bool, true, not, ◌||◌, ◌↔◌, some, arith, Option-cases, inl, inr}
use fips_shield.Std.IpAddr.{IpAddr, parse_socket, is_loopback}
use fips_shield.Ui.Api.{Args, binds, start}

-- The dashboard goes on to bind an address exactly if `--bind` is that address and port and it is
-- a loopback address or `--insecure-bind` was given; it warns exactly if the address is not one.
pub start-binds :
    (args : Args) (ip : IpAddr) (port : ℕ) (warns : Bool)
    → (start args ≡ binds ip port warns) ↔ (
        (parse_socket args.bind ≡ some (ip, port))
        × ((is_loopback ip || args.insecure_bind) ≡ true)
        × (warns ≡ not (is_loopback ip)))
unfolding start
start-binds args ip port warns = elim (Option-cases (parse_socket args.bind)) [
  | inl n ↦ ((λ h. absurd (ground arith)), λ (p, q, r). absurd (ground arith))
  | inr ((ip', port'), e) ↦
      ((λ h. (ground arith, ground arith, ground arith)), λ (p, q, r). ground arith)
]
