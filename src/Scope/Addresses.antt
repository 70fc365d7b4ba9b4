-- ===== src/Scope/Addresses.antt =====
-- pipeline/scope.py, `_validate_ip`: which addresses are in scope.
use moirax_asm.Prelude.{◌≡◌, refl, true, false, not, ◌&&◌, List, [], ◌∷◌, is_empty, arith}
use moirax_asm.Scope.{NetLib, ScopeGate, in_any, validate_ip}

module _ {Ip Net : Type 0} (L : NetLib Ip Net) (g : ScopeGate Net) where
  in_any-nonempty : (ip : Ip) (nets : List Net) → in_any L ip nets ≡ true → is_empty nets ≡ false
  unfolding in_any
  in_any-nonempty ip [] h = ground arith
  in_any-nonempty ip (net ∷ nets) h = refl

  -- An address is accepted exactly if it is in an included network and in no excluded one; the
  -- private ranges change only the reason of a refusal.
  pub validate_ip_accepts :
      (ip : Ip)
      → (validate_ip L g ip).0
        ≡ (in_any L ip g.include_networks && not (in_any L ip g.exclude_networks))
  unfolding validate_ip
  validate_ip_accepts ip = ground (arith, in_any-nonempty ip g.include_networks)
