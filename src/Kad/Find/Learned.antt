-- ===== src/Kad/Find/Learned.antt =====
-- What the book knows after one step of a search.
use xstack.Base.{
  ℕ, ◌≡◌, ◌≢◌, refl, sym, ap, subst, ◌∙◌, ◌⊎◌, inl, inr, arith, List, [], ◌∷◌, map, Option, none,
  some, Bool, true, false, if◌then◌else◌, ite, All, contains,
}
use xstack.Base.Result.{Result, ok, err, collect, bind-inversion, ok-injective}
use xstack.Rpc.{Io, xstack_call}
use xstack.PeerBook as PeerBooks
use xstack.PeerBook.Listening.{insert_lem}
use xstack.Switch.State.{Net, Failure, book_names, library}
use xstack.Kad.Messages.{
  Error, timeout, xstack_error, Codec, PeerInfo, ProtoPeer, KadMessage, kad_find_node, kad,
  addresses, peer_id, known_at, found_peer, message_of, find_node, on_answer,
}
use xstack.Kad.Find.{Routing, closest, finished, Book, learn, routed, on_closest, on_stream, route}

module _ (N : Net) (C : Codec N) where
  -- A peer of which nothing but its identifier and its addresses is told.
  abbrev pub IsShorn : PeerInfo N → Type 0
  IsShorn info = info ≡ known_at N C info.id info.addrs

  -- What is known of a peer after an answer, if it is known of it before as `old`: the last that the
  -- answer tells of it.
  unfoldable pub latest : List (PeerInfo N) → N.PeerId → Option (PeerInfo N) → Option (PeerInfo N)
  latest [] p old = old
  latest (info ∷ infos) p old = latest infos p (ite (N.peer_discrete info.id p) (some info) old)

  abbrev pub ids : List (PeerInfo N) → List N.PeerId
  ids infos = map (λ (info : PeerInfo N). info.id) infos

  found_peer-IsShorn :
      (peer : ProtoPeer) (info : PeerInfo N) → found_peer N C peer ≡ ok info → IsShorn info
  unfolding found_peer
  found_peer-IsShorn peer info e =
      let (addrs, _, e') = bind-inversion (addresses N C peer.addrs) _ info e in
      let (id, _, e'') = bind-inversion (peer_id N C peer.id) _ info e' in
      let same : known_at N C id addrs ≡ info = ok-injective e'' in rw (sym same) refl

  collect-IsShorn :
      (peers : List ProtoPeer) (infos : List (PeerInfo N))
      → collect (found_peer N C) peers ≡ ok infos
      → All IsShorn infos
  unfolding collect
  collect-IsShorn [] infos e = subst (All IsShorn) (ok-injective e) tt
  collect-IsShorn (peer ∷ peers) infos e =
      let (info, e', more) = bind-inversion (found_peer N C peer) _ infos e in
      let (rest, e'', same) = bind-inversion (collect (found_peer N C) peers) _ infos more in
      subst (All IsShorn) (ok-injective same)
        (found_peer-IsShorn peer info e', collect-IsShorn peers rest e'')

  learn-latest :
      (target : N.PeerId) (book : Book N) (infos : List (PeerInfo N)) (p : N.PeerId)
      → All IsShorn infos
      → PeerBooks.get (book_names N) (learn N C target book infos).0 p
        ≡ latest infos p (PeerBooks.get (book_names N) book p)
  unfolding learn latest
  learn-latest target book [] p all = refl
  learn-latest target book (info ∷ infos) p (e, all) =
      let same : record info { disappear = none } ≡ info =
        ap (λ (i : PeerInfo N). record i { disappear = none }) e ∙ sym e in
      learn-latest target (PeerBooks.insert (book_names N) book info).0 infos p all
      ∙ ap (latest infos p) (
          (insert_lem (book_names N) book info p []).1
          ∙ ap (λ i. ite (N.peer_discrete info.id p) (some i) (PeerBooks.get (book_names N) book p))
              same)

  learn-ids :
      (target : N.PeerId) (book : Book N) (infos : List (PeerInfo N))
      → ((learn N C target book infos).1 ≡ ids infos)
        × ((learn N C target book infos).2 ≡ contains N.peer_discrete (ids infos) target)
  unfolding learn
  learn-ids target book [] = (refl, refl)
  learn-ids target book (info ∷ infos) =
      let (same_ids, same_seen) =
        learn-ids target (PeerBooks.insert (book_names N) book info).0 infos in
      (ap (λ rest. info.id ∷ rest) same_ids, ground (arith, same_seen))

  -- A search at a peer that is not the target, and that answers in time.
  pub record Heard (target : N.PeerId) (max : ℕ) (opened : Option (Result Io (Failure N)))
      (late : Bool) : Type 0 where
    pub io : Io
    pub after : Io
    pub infos : List (PeerInfo N)
    pub opens : opened ≡ some (ok io)
    pub in_time : late ≡ false
    pub answers : kad_find_node N C (C.to_bytes target) max io ≡ (ok infos, after)
    pub shorn : All IsShorn infos

  -- The result of a step at another peer than the target and the book after it: an error, where
  -- nothing was heard in time, or the peers that were heard of.
  abbrev pub Asked :
      N.PeerId
      → ℕ
      → Option (Result Io (Failure N))
      → Bool
      → Book N
      → Result (Routing N) (Error N) × Book N
      → Type 0
  Asked target max opened late book (r, book') =
      ((¬ Heard target max opened late) × (e : Error N) × (r ≡ err e) × (book' ≡ book))
      ⊎ ((h : Heard target max opened late) × (r
            ≡ ok (
                if contains N.peer_discrete (ids h.infos) target
                then finished
                else closest (ids h.infos)))
          × ((p : N.PeerId)
              → PeerBooks.get (book_names N) book' p
                ≡ latest h.infos p (PeerBooks.get (book_names N) book p)))

  -- A step, with the book before it and when the answer is there.
  abbrev pub Routed :
      N.PeerId
      → N.PeerId
      → ℕ
      → Option (Result Io (Failure N))
      → Bool
      → Book N
      → Book N
      → Result (Routing N) (Error N) × Book N
      → Type 0
  Routed target peer max opened late before book (r, book') =
      ((peer ≡ target) × (r ≡ ok finished) × (book' ≡ before))
      ⊎ ((peer ≢ target) × Asked target max opened late book (r, book'))

  on_answer-IsShorn :
      (o : Result KadMessage (Failure N) × Io) (infos : List (PeerInfo N)) (after : Io)
      → on_answer N C o (λ message. collect (found_peer N C) message.closer_peers)
        ≡ (ok infos, after)
      → All IsShorn infos
  on_answer-IsShorn (ok message, io) infos after e =
      collect-IsShorn message.closer_peers infos (ap (λ x. x.0) e)
  on_answer-IsShorn (err e', io) infos after e = absurd (ground (arith, e))

  kad_find_node-IsShorn :
      (key : List ℕ) (max : ℕ) (io after : Io) (infos : List (PeerInfo N))
      → kad_find_node N C key max io ≡ (ok infos, after)
      → All IsShorn infos
  unfolding kad_find_node
  kad_find_node-IsShorn key max io after infos e =
      on_answer-IsShorn (xstack_call (library N) (kad N C) (message_of find_node key) max io) infos
        after e

  routed_lem :
      (target : N.PeerId) (book : Book N) (infos : List (PeerInfo N))
      → routed N C (learn N C target book infos) ≡ (
        ok (if contains N.peer_discrete (ids infos) target then finished else closest (ids infos)),
        (learn N C target book infos).0,
      )
  routed_lem target book infos = by_flag (learn N C target book infos) (learn-ids target book infos)
    where
      by_flag :
          (o : Book N × List N.PeerId × Bool)
          → (o.1 ≡ ids infos) × (o.2 ≡ contains N.peer_discrete (ids infos) target)
          → routed N C o ≡ (
            ok (
                if contains N.peer_discrete (ids infos) target
                then finished
                else closest (ids infos)),
            o.0,
          )
      by_flag (after, candidates, true) (same, seen) = rw (sym seen) refl
      by_flag (after, candidates, false) (same, seen) = rw (sym seen, same) refl

  unheard :
      (target : N.PeerId) (max : ℕ) (io after : Io) (e : Error N)
      (h : Heard target max (some (ok io)) false)
      → kad_find_node N C (C.to_bytes target) max io ≡ (err e, after)
      → ⊥
  unheard target max io after e h fails =
      let same : io ≡ h.io = ground (arith, h.opens) in
      let gives : ◌≡◌ {A = Result (List (PeerInfo N)) (Error N) × Io} (ok h.infos, h.after)
          (err e, after) =
        sym h.answers ∙ ap (kad_find_node N C (C.to_bytes target) max) (sym same) ∙ fails in
      ground (arith, gives)

  -- `route` on what `kad_find_node` gives.
  by_reply :
      (target : N.PeerId) (max : ℕ) (late : Bool) (book : Book N) (io : Io)
      (reply : Result (List (PeerInfo N)) (Error N) × Io)
      → kad_find_node N C (C.to_bytes target) max io ≡ reply
      → Asked target max (some (ok io)) late book (on_closest N C target book late reply)
  by_reply target max true book io reply e =
      inl (λ h. ground (arith, h.in_time), timeout, refl, refl)
  by_reply target max false book io (err e', after) e =
      inl (λ h. unheard target max io after e' h e, e', refl, refl)
  by_reply target max false book io (ok infos, after) e =
      let shorn = kad_find_node-IsShorn (C.to_bytes target) max io after infos e in
      let h : Heard target max (some (ok io)) false = record {
        io = io;
        after = after;
        infos = infos;
        opens = refl;
        in_time = refl;
        answers = e;
        shorn = shorn;
      } in
      subst (Asked target max (some (ok io)) false book) (sym (routed_lem target book infos))
        (inr (h, refl, λ p. learn-latest target book infos p shorn))

  by_stream :
      (target : N.PeerId) (max : ℕ) (opened : Option (Result Io (Failure N))) (late : Bool)
      (book : Book N)
      → Asked target max opened late book (on_stream N C target book max opened late)
  by_stream target max none late book = inl (λ h. ground (arith, h.opens), timeout, refl, refl)
  by_stream target max (some (err e)) late book =
      inl (λ h. ground (arith, h.opens), xstack_error e, refl, refl)
  by_stream target max (some (ok io)) late book =
      by_reply target max late book io (kad_find_node N C (C.to_bytes target) max io) refl

  -- A step of a search for a node, at any peer. At the target itself the search is finished, and the
  -- book is as it was. Another peer is asked, and meanwhile the book changes, as the connection to the
  -- peer and other tasks change it. If no stream opens, or no answer in form comes back, in time and
  -- within the limit, then the step fails and changes no more. Otherwise the search is finished if the
  -- target is among the peers that the answer names, and else these are the next candidates; the book
  -- then knows each peer that was named, as the last that was told of it, with no protocols and no
  -- times, whatever it knew before, and the others as when the answer came.
  pub route-Routed :
      (target peer : N.PeerId) (max : ℕ) (opened : Option (Result Io (Failure N))) (late : Bool)
      (meanwhile : Book N → Book N) (book : Book N)
      → Routed target peer max opened late book
          (meanwhile book)
          (route N C target peer max opened late meanwhile book)
  unfolding route
  route-Routed target peer max opened late meanwhile book =
      elim (N.peer_discrete peer target)
        as (λ d. Routed target peer max opened late book (meanwhile book) (
          if ite d true false
          then (ok finished, book)
          else on_stream N C target (meanwhile book) max opened late)) [
            | yes same ↦ inl (same, refl, refl)
            | no apart ↦ inr (apart, by_stream target max opened late (meanwhile book))
          ]
