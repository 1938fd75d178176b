-- ===== src/PeerBook/History.antt =====
-- Any history of the peer book.

use xstack.Base.{
  arith, ◌≡◌, refl, List, [], ◌∷◌, none, some, true, contains, Bool-cases, Option-cases, inl, inr,
}
use xstack.Base.Map
use xstack.Base.Map.{Map, get-insert, get-remove}
use xstack.PeerBook.{
  Names, PeerInfo, Book, empty, insert, remove, appear, disappear, get, listen_on, write, addrs_of,
}
use xstack.PeerBook.Listening.{insert_lem, remove_lem}

pub data Event (N : Names) : Type 0 where
  inserted : PeerInfo N → Event N
  removed : N.PeerId → Event N
  appeared disappeared : N.PeerId → N.Time → Event N

module _ (N : Names) where
  open N use {PeerId, Addr, Time, peer_discrete, addr_discrete}

  unfoldable pub step : Book N → Event N → Book N
  step b (inserted info) = (insert N b info).0
  step b (removed p) = (remove N b p).0
  step b (appeared p time) = appear N b p time
  step b (disappeared p time) = disappear N b p time

  unfoldable pub run : Book N → List (Event N) → Book N
  unfolding step
  run b [] = b
  run b (e ∷ es) = run (step b e) es

  -- A peer that is known, stored under its identifier, with the address among its own.
  pub record Known (b : Book N) (p : PeerId) (a : Addr) : Type 0 where
    pub info : PeerInfo N
    pub found : get N b p ≡ some info
    pub at : contains addr_discrete info.addrs a ≡ true

  pub record IsBook (b : Book N) : Type 0 where
    pub named : (p : PeerId) (info : PeerInfo N) → get N b p ≡ some info → info.id ≡ p
    pub listening : (a : Addr) (p : PeerId) → listen_on N b a ≡ some p → Known b p a

  empty-IsBook : IsBook (empty N)
  unfolding Map.get
  empty-IsBook = record {
    named = λ p info e. absurd (ground arith);
    listening = λ a p e. absurd (ground arith);
  }

  insert-listening :
      (b : Book N) (info : PeerInfo N) (a : Addr) (p : PeerId)
      → IsBook b
      → listen_on N (insert N b info).0 a ≡ some p
      → Known (insert N b info).0 p a
  insert-listening b info a p v e = elim (Bool-cases (contains addr_discrete info.addrs a)) [
    | inl c ↦ record {
      info = record info { disappear = none };
      found = ground (arith, e, c, (insert_lem N b info p a).1, (insert_lem N b info p a).2);
      at = c;
    }
    | inr c ↦ elim (Bool-cases (contains addr_discrete (addrs_of N (get N b info.id)) a)) [
      | inl c' ↦ absurd (ground (arith, e, c, c', (insert_lem N b info p a).2))
      | inr c' ↦
          let k = v.listening a p (ground (arith, e, c, c', (insert_lem N b info p a).2)) in
          record {
            info = k.info;
            found = ground (arith, c', k.found, k.at, (insert_lem N b info p a).1);
            at = k.at;
          }
    ]
  ]

  insert-IsBook : (b : Book N) (info : PeerInfo N) → IsBook b → IsBook (insert N b info).0
  unfolding insert
  insert-IsBook b info v = record {
    named = λ p found e. ground (
      arith,
      e,
      v.named p found,
      get-insert peer_discrete info.id p (record info { disappear = none }) b.peer_infos,
    );
    listening = λ a p e. insert-listening b info a p v e;
  }

  remove-listening :
      (b : Book N) (q : PeerId) (a : Addr) (p : PeerId)
      → IsBook b
      → listen_on N (remove N b q).0 a ≡ some p
      → Known (remove N b q).0 p a
  remove-listening b q a p v e =
      elim (Bool-cases (contains addr_discrete (addrs_of N (get N b q)) a)) [
        | inl c ↦ absurd (ground (arith, e, c, (remove_lem N b q p a).2))
        | inr c ↦
            let k = v.listening a p (ground (arith, e, c, (remove_lem N b q p a).2)) in
            record {
              info = k.info;
              found = ground (arith, c, k.found, k.at, (remove_lem N b q p a).1);
              at = k.at;
            }
      ]

  remove-IsBook : (b : Book N) (q : PeerId) → IsBook b → IsBook (remove N b q).0
  unfolding remove
  remove-IsBook b q v = record {
    named =
        λ p found e. ground (arith, e, v.named p found, get-remove peer_discrete q p b.peer_infos);
    listening = λ a p e. remove-listening b q a p v e;
  }

  -- A write that keeps the identifier and the addresses.
  write-IsBook :
      (b : Book N) (p : PeerId) (info new_info : PeerInfo N)
      → IsBook b
      → get N b p ≡ some info
      → new_info.id ≡ info.id
      → new_info.addrs ≡ info.addrs
      → IsBook (write N b p (some new_info))
  write-IsBook b p info new_info v e same_id same_addrs = record {
    named = λ q found g. ground (
      arith,
      g,
      same_id,
      v.named p info e,
      v.named q found,
      get-insert peer_discrete p q new_info b.peer_infos,
    );
    listening = λ a q g.
        let k = v.listening a q g in
        elim (peer_discrete p q) [
          | yes same ↦ record {
            info = new_info;
            found = ground (arith, same, get-insert peer_discrete p q new_info b.peer_infos);
            at = rw same_addrs (ground (arith, e, k.found, k.at, same));
          }
          | no other ↦ record {
            info = k.info;
            found =
                ground (arith, other, k.found, get-insert peer_discrete p q new_info b.peer_infos);
            at = k.at;
          }
        ];
  }

  step-IsBook : (b : Book N) (e : Event N) → IsBook b → IsBook (step b e)
  unfolding step appear disappear
  step-IsBook b (inserted info) v = insert-IsBook b info v
  step-IsBook b (removed p) v = remove-IsBook b p v
  step-IsBook b (appeared p time) v = elim (Option-cases (get N b p)) [
    | inl e ↦ rw e v
    | inr (info, e) ↦
        rw e (write-IsBook b p info (record info { appear = some time }) v e refl refl)
  ]
  step-IsBook b (disappeared p time) v = elim (Option-cases (get N b p)) [
    | inl e ↦ rw e v
    | inr (info, e) ↦
        rw e (write-IsBook b p info (record info { disappear = some time }) v e refl refl)
  ]

  run-IsBook : (b : Book N) (es : List (Event N)) → IsBook b → IsBook (run b es)
  unfolding run
  run-IsBook b [] v = v
  run-IsBook b (e ∷ es) v = run-IsBook (step b e) es (step-IsBook b e v)

  -- Whatever peers are inserted, removed, connected and disconnected from the empty book on: a peer
  -- that the reverse lookup of an address gives is known to the book, under its own identifier and
  -- with that address.
  pub run-Known :
      (es : List (Event N)) (a : Addr) (p : PeerId)
      → listen_on N (run (empty N) es) a ≡ some p
      → (k : Known (run (empty N) es) p a) × (k.info.id ≡ p)
  run-Known es a p e =
      let v = run-IsBook (empty N) es empty-IsBook in
      let k = v.listening a p e in (k, v.named p k.info k.found)
