-- ===== src/Kad/Seeds/Known.antt =====
-- What the book knows of the seeds.
use Prim.Native.String.{String}
use xstack.Base.{
  ℕ, All, Bool-cases, if_pos, ◌≡◌, refl, sym, ◌∙◌, ◌⊎◌, inl, inr, arith, List, [], ◌∷◌, Option,
  none, some, Bool, true, false, ite, contains,
}
use xstack.Base.Map
use xstack.Base.Map.{Map, IsMap, get-insert, insert-IsMap}
use xstack.Base.Outcome.{Outcome, done, panic}
use xstack.Base.Result.{Result, ok, err}
use xstack.PeerBook as PeerBooks
use xstack.PeerBook.Listening.{insert_lem}
use xstack.Switch.State.{Net, Addr, book_names}
use xstack.Switch.Identity.{keys}
use xstack.Kad.Messages.{Error, PeerInfo}
use xstack.Kad.Find.{Book}
use xstack.Kad.Seeds.{seed_info, insert_all, is_local, with_seeds}
use xstack.Kad.Seeds.Groups.{first_error, seeds_of, merged, group-Grouped, group-first_error}

module _ (N : Net) where
  open N use {PeerId, peer_discrete}

  -- What the book knows of a peer of the map.
  abbrev pub seed_or : PeerId → Option (List (Addr N)) → Option (PeerInfo N) → Option (PeerInfo N)
  seed_or p none old = old
  seed_or p (some addrs) old = some (seed_info N p addrs)

  -- What the book knows of a peer, by the seeds that end with it.
  abbrev pub seed_known : PeerId → List (Addr N) → Option (PeerInfo N) → Option (PeerInfo N)
  seed_known p [] old = old
  seed_known p (a ∷ addrs) old = some (seed_info N p (a ∷ addrs))

  abbrev pub is_seed : List (Addr N) → Bool
  is_seed [] = false
  is_seed (a ∷ addrs) = true

  abbrev is_some : Option (List (Addr N)) → Bool
  is_some none = false
  is_some (some addrs) = true

  contains-keys :
      (m : Map PeerId (List (Addr N))) (p : PeerId)
      → contains peer_discrete (keys m) p ≡ is_some (Map.get peer_discrete p m)
  unfolding keys Map.get
  contains-keys [] p = refl
  contains-keys ((id, addrs) ∷ m) p = ground (arith, contains-keys m p)

  seed_or-merged :
      (p : PeerId) (addrs : List (Addr N)) (old : Option (PeerInfo N))
      → seed_or p (merged N none addrs) old ≡ seed_known p addrs old
  seed_or-merged p [] old = refl
  seed_or-merged p (a ∷ addrs) old = refl

  is_some-merged : (addrs : List (Addr N)) → is_some (merged N none addrs) ≡ is_seed addrs
  is_some-merged [] = refl
  is_some-merged (a ∷ addrs) = refl

  module _ (key_of : PeerId → ℕ) (local_key : ℕ) where
    abbrev IsRemote : PeerId → Type 0
    IsRemote p = is_local N key_of local_key p ≡ false

    -- The peers of a map are inserted, unless one of them is the local one.
    abbrev Inserted : Book N → Map PeerId (List (Addr N)) → Outcome (Book N) → Type 0
    Inserted book m o =
        ((p : PeerId) × (contains peer_discrete (keys m) p ≡ true)
          × (is_local N key_of local_key p ≡ true)
          × (o ≡ panic))
        ⊎ ((book' : Book N) × All IsRemote (keys m)
            × (o ≡ done book')
            × ((p : PeerId)
                → PeerBooks.get (book_names N) book' p
                  ≡ seed_or p (Map.get peer_discrete p m) (PeerBooks.get (book_names N) book p)))

    seed_or-insert :
        (book : Book N) (id : PeerId) (addrs : List (Addr N)) (m : Map PeerId (List (Addr N)))
        (p : PeerId)
        → Map.get peer_discrete id m ≡ none
        → seed_or p (Map.get peer_discrete p m) (
            PeerBooks.get
              (book_names N)
              (PeerBooks.insert (book_names N) book (seed_info N id addrs)).0
              p)
          ≡ seed_or p
              (Map.get peer_discrete p ((id, addrs) ∷ m))
              (PeerBooks.get (book_names N) book p)
    unfolding Map.get
    seed_or-insert book id addrs m p fresh =
        rw ((insert_lem (book_names N) book (seed_info N id addrs) p []).1)
          (elim (peer_discrete id p)
            as (λ d.
              seed_or p (Map.get peer_discrete p m)
                (ite d (some (seed_info N id addrs)) (PeerBooks.get (book_names N) book p))
              ≡ seed_or p (ite d (some addrs) (Map.get peer_discrete p m))
                  (PeerBooks.get (book_names N) book p)) [
                    | yes same ↦ rw (sym same, fresh) refl
                    | no apart ↦ refl
                  ])

    insert_all-Inserted :
        (book : Book N) (m : Map PeerId (List (Addr N)))
        → IsMap peer_discrete m
        → Inserted book m (insert_all N key_of local_key book m)
    unfolding insert_all Map.get keys
    insert_all-Inserted book [] u = inr (book, tt, refl, λ p. refl)
    insert_all-Inserted book ((id, addrs) ∷ m) (fresh, u) =
        elim (Bool-cases (is_local N key_of local_key id)) [
          | inl local ↦ inl (
            id,
            if_pos (peer_discrete id id) refl true (contains peer_discrete (keys m) id),
            local,
            rw local refl,
          )
          | inr remote ↦
              elim (insert_all-Inserted
                (PeerBooks.insert (book_names N) book (seed_info N id addrs)).0 m u) [
                  | inl (p, listed, local, e) ↦ inl (p, ground (arith, listed), local, rw remote e)
                  | inr (book', all_remote, e, known) ↦ inr (
                    book',
                    (remote, all_remote),
                    rw remote e,
                    λ p. known p ∙ seed_or-insert book id addrs m p fresh,
                  )
                ]
        ]

    -- What `with_seeds` does: it returns the error of a bad seed, panics at the local peer, or inserts
    -- the peers of all seeds.
    abbrev pub Seeded :
        List (Result (Addr N) String)
        → Book N
        → Outcome (Result (List PeerId) (Error N) × Book N)
        → Type 0
    Seeded seeds book o =
        ((e : Error N) × (first_error N seeds ≡ some e) × (o ≡ done (err e, book)))
        ⊎ ((p : PeerId) × (first_error N seeds ≡ none)
            × (is_seed (seeds_of N seeds p) ≡ true)
            × (is_local N key_of local_key p ≡ true)
            × (o ≡ panic))
        ⊎ ((ids : List PeerId) × (book' : Book N) × (first_error N seeds ≡ none)
            × All (λ p. is_local N key_of local_key p ≡ false) ids
            × (o ≡ done (ok ids, book'))
            × ((p : PeerId)
                → (contains peer_discrete ids p ≡ is_seed (seeds_of N seeds p))
                  × (PeerBooks.get (book_names N) book' p
                      ≡ seed_known p (seeds_of N seeds p) (PeerBooks.get (book_names N) book p))))

    -- `with_seeds` returns the error of the first seed that is no address or does not end with a peer,
    -- and then the book is as it was. If there is none, it panics where a seed ends with a peer at no
    -- distance from the local one. Otherwise the routing table is given the peers with which a seed
    -- ends, and no others, none of which is at no distance from the local one; the book knows each of
    -- them at the seeds that end with it, in order, with no protocols and no times, whatever it knew
    -- before, and the other peers as before.
    pub with_seeds-Seeded :
        (seeds : List (Result (Addr N) String)) (book : Book N)
        → Seeded seeds book (with_seeds N key_of local_key seeds book)
    unfolding with_seeds Map.get
    with_seeds-Seeded seeds book = by_error (first_error N seeds) refl
      where
        by_error :
            (o : Option (Error N))
            → first_error N seeds ≡ o
            → Seeded seeds book (with_seeds N key_of local_key seeds book)
        by_error (some e) bad = rw (group-first_error N [] seeds e bad) (inl (e, bad, refl))
        by_error none fine =
            let g = group-Grouped N [] seeds tt fine in
            let listed = λ (p : PeerId).
              contains-keys g.groups p ∙ rw (g.each p) (is_some-merged (seeds_of N seeds p)) in
            rw g.returns (elim (insert_all-Inserted book g.groups g.unique) [
              | inl (p, inside, local, e) ↦
                  inr (inl (p, fine, sym (listed p) ∙ inside, local, rw e refl))
              | inr (book', all_remote, e, known) ↦ inr (
                  inr (
                    keys g.groups,
                    book',
                    fine,
                    all_remote,
                    rw e refl,
                    λ p. (
                      listed p,
                      known p
                          ∙ rw (g.each p) (
                              seed_or-merged p (seeds_of N seeds p)
                                (PeerBooks.get (book_names N) book p)),
                    ),
                  ))
            ])
