-- ===== src/Circuit/Calls/Reserve.antt =====
-- What a reservation that is granted promises.
use xstack.Base.{
  ℕ, ◌≡◌, refl, ap, ◌∙◌, arith, Option, none, some, true, leb, ◌==◌, if◌then◌else◌, Bool-cases, inl,
  inr, ◌⊎◌,
}
use xstack.Base.Outcome.{done, panic}
use xstack.Base.Result.{err}
use xstack.Switch.State.{Net}
use xstack.Circuit.{
  Error, hot_reject, reservation_expire, HopMessage, ProtoReservation, hop_status_type, status_ok,
}
use xstack.Circuit.Calls.{Codec, is_number, addresses, check_status, reservation_of, reserved}

is_number-some : (o : Option ℕ) (n : ℕ) → is_number o n ≡ true → o ≡ some n
is_number-some none n e = absurd (ground (arith, e))
is_number-some (some m) n e = ap some (ground (arith, e))

module _ (N : Net) (C : Codec N) where
  -- An answer that grants a reservation until a point in time, and names its addresses.
  pub record Grants (message : HopMessage) (secs : ℕ) : Type 0 where
    pub is_status : message.kind ≡ some hop_status_type
    pub is_ok : message.status ≡ some status_ok
    pub reservation : ProtoReservation
    pub present : message.reservation ≡ some reservation
    pub expires : reservation.expire ≡ some secs

  granted_lem :
      (message : HopMessage) (secs : ℕ) (g : Grants message secs)
      → reservation_of N C message ≡ (
          if leb secs C.max_time
          then done (reserved N C secs message.limit (addresses N C g.reservation.addrs))
          else panic)
  unfolding reservation_of check_status
  granted_lem message secs g = rw (g.is_status, g.is_ok, g.present, g.expires) refl

  -- What becomes of an answer, by whether it grants a reservation.
  abbrev pub Answered : HopMessage → Type 0
  Answered message =
      ((secs : ℕ) × (g : Grants message secs) × (reservation_of N C message ≡ (
          if leb secs C.max_time
          then done (reserved N C secs message.limit (addresses N C g.reservation.addrs))
          else panic)))
      ⊎ (((secs : ℕ) → ¬ Grants message secs)
          × (e : Error N) × (reservation_of N C message ≡ done (err e)))

  by_expire :
      (message : HopMessage) (r : ProtoReservation) (o : Option ℕ)
      → message.kind ≡ some hop_status_type
      → message.status ≡ some status_ok
      → message.reservation ≡ some r
      → r.expire ≡ o
      → Answered message
  unfolding reservation_of check_status
  by_expire message r none kind st er eo = inr (
    λ secs g. ground (arith, er, eo, g.present, g.expires),
    reservation_expire,
    rw (kind, st, er, eo) refl,
  )
  by_expire message r (some secs) kind st er eo =
      let g : Grants message secs = record {
        is_status = kind;
        is_ok = st;
        reservation = r;
        present = er;
        expires = eo;
      } in
      inl (secs, g, granted_lem message secs g)

  by_reservation :
      (message : HopMessage) (o : Option ProtoReservation)
      → message.kind ≡ some hop_status_type
      → message.status ≡ some status_ok
      → message.reservation ≡ o
      → Answered message
  unfolding reservation_of check_status
  by_reservation message none kind st e = inr (
    λ secs g. ground (arith, e, g.present),
    hot_reject "reservation field is null",
    rw (kind, st, e) refl,
  )
  by_reservation message (some r) kind st e = by_expire message r r.expire kind st e refl

  by_status :
      (message : HopMessage) (o : Option ℕ)
      → message.kind ≡ some hop_status_type
      → message.status ≡ o
      → Answered message
  unfolding reservation_of check_status
  by_status message none kind e =
      inr
        (λ secs g. ground (arith, e, g.is_ok), hot_reject "status field is null", rw (kind, e) refl)
  by_status message (some s) kind e = elim (Bool-cases (s == status_ok)) [
    | inl fine ↦
        by_reservation message message.reservation kind (e ∙ ap some (ground (arith, fine))) refl
    | inr bad ↦ inr (
      λ secs g. ground (arith, e, g.is_ok, bad),
      hot_reject (C.show_status s),
      rw (kind, e, bad) refl,
    )
  ]

  -- What becomes of the answer to a request for a reservation. An answer of the type `STATUS` with
  -- the status `OK` and with a reservation that names its end gives a reservation until then, with
  -- the addresses and the limit of the answer, or the error of the first address that is none; but it
  -- is a panic where its end is past the last point in time that can be told. Any other answer is an
  -- error, never a panic.
  pub reservation_of_lem : (message : HopMessage) → Answered message
  unfolding reservation_of check_status
  reservation_of_lem message = elim (Bool-cases (is_number message.kind hop_status_type)) [
    | inl status ↦
        by_status message message.status (is_number-some message.kind hop_status_type status) refl
    | inr other ↦ inr (
      λ secs g. ground (arith, other, g.is_status),
      hot_reject "Invalid response, expect status",
      rw other refl,
    )
  ]
