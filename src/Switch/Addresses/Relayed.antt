-- ===== src/Switch/Addresses/Relayed.antt =====
-- The set of the addresses behind relays.
use xstack.Base.{
  ◌≡◌, refl, arith, List, [], ◌∷◌, ◌++◌, true, false, ◌&&◌, ◌||◌, not, contains, ite, Bool-cases,
  inl, inr,
}
use xstack.Switch.Addresses.{extend, delete, delete_all}

module _ {Addr : Type 0} (addr_discrete : Discrete Addr) where
  contains-append :
      (xs ys : List Addr) (a : Addr)
      → contains addr_discrete (xs ++ ys) a
        ≡ (contains addr_discrete xs a || contains addr_discrete ys a)
  contains-append [] ys a = refl
  contains-append (x ∷ xs) ys a = ground (arith, contains-append xs ys a)

  contains-delete :
      (known : List Addr) (b a : Addr)
      → contains addr_discrete (delete addr_discrete known b) a
        ≡ (contains addr_discrete known a && ite (addr_discrete b a) false true)
  unfolding delete
  contains-delete [] b a = refl
  contains-delete (x ∷ known) b a = ground (arith, contains-delete known b a)

  pub contains-delete_all :
      (known addrs : List Addr) (a : Addr)
      → contains addr_discrete (delete_all addr_discrete known addrs) a
        ≡ (contains addr_discrete known a && not (contains addr_discrete addrs a))
  unfolding delete_all
  contains-delete_all known [] a = ground arith
  contains-delete_all known (b ∷ addrs) a =
      ground (
        arith,
        contains-delete_all (delete addr_discrete known b) addrs a,
        contains-delete known b a,
      )

  pub contains-extend :
      (known addrs : List Addr) (a : Addr)
      → contains addr_discrete (extend addr_discrete known addrs) a
        ≡ (contains addr_discrete known a || contains addr_discrete addrs a)
  unfolding extend
  contains-extend known [] a = ground arith
  contains-extend known (b ∷ addrs) a = elim (Bool-cases (contains addr_discrete known b)) [
    | inl old ↦ rw old (ground (arith, contains-extend known addrs a, old))
    | inr fresh ↦ rw fresh (
        ground (arith, contains-extend (known ++ b ∷ []) addrs a, contains-append known (b ∷ []) a))
  ]
