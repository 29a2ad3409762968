-- ===== src/Gateways/Release/Confirmed.antt =====
-- apps/devices/gateway_release.py: proofs on when a release is completed.
use novena_hub.Prelude.{
  ℕ, ◌≡◌, refl, sym, ◌∙◌, Bool, true, false, not, ◌||◌, ◌&&◌, String, Option, none, some, List, ◌⊎◌,
  inl, inr, Each, Each-refl, Each-update_first, update_first_twice, Bool-cases, Option-cases, any,
  find?, find?-sound, subst, update_first, is_some, arith, ◌==◌, ltb, leb,
}
use novena_hub.RemoteControl.Types.{EventPayload}
use novena_hub.Gateways.Release.{ReleaseRequest, Ownership, is_completed_release, retry_release}
use novena_hub.Gateways.Release.Finalize.{complete_release, finalize_writes, finalize_release}
use novena_hub.Gateways.Release.Dispatch.{
  ReleaseSettings, Effects, is_claimable_release, claim_release, revocation_error, finish_release,
  dispatch_found, dispatch_gateway_release,
}

-- The edge has confirmed its reset, and the broker has revoked its credentials.
pub record IsRevoked (c : ReleaseSettings) (e : Effects) (r : ReleaseRequest) : Type 0 where
  pub confirmed : is_some r.edge_reset_at ≡ true
  pub provisioned : c.provisioning_required ≡ true
  pub cleared : e.clear_gateway_retained_policy ≡ none
  pub deprovisioned : e.deprovision_gateway_mqtt ≡ none

-- A release is completed now exactly when it was before, or it has been completed on good grounds.
abbrev pub Ends : ReleaseSettings → Effects → ReleaseRequest → ReleaseRequest → Type 0
Ends c e old new =
    (is_completed_release new.status ≡ is_completed_release old.status) ⊎ IsRevoked c e old

pub revocation_error-IsRevoked :
    (c : ReleaseSettings) (e : Effects) (r : ReleaseRequest)
    → revocation_error c e r ≡ none
    → IsRevoked c e r
unfolding revocation_error
revocation_error-IsRevoked c e r h = record {
  confirmed = ground arith;
  provisioned = ground arith;
  cleared = ground arith;
  deprovisioned = ground arith;
}

claimable-pending :
    (now : ℕ) (r : ReleaseRequest)
    → is_claimable_release now r ≡ true
    → is_completed_release r.status ≡ false
unfolding is_claimable_release is_completed_release
claimable-pending now r h = ground arith

retry_release-pending :
    (limit now : ℕ) (error : String) (r : ReleaseRequest)
    → is_completed_release (retry_release limit now error r).status ≡ false
unfolding retry_release is_completed_release
retry_release-pending limit now error r = elim (Bool-cases (leb 3 r.attempt_count)) [
  | inl h ↦ rw h refl
  | inr h ↦ rw h refl
]

pub claim-IsRevoked :
    (c : ReleaseSettings) (e : Effects) (now : ℕ) (r : ReleaseRequest)
    → IsRevoked c e (claim_release c now r)
    → IsRevoked c e r
unfolding claim_release
claim-IsRevoked c e now r h = record {
  confirmed = h.confirmed;
  provisioned = h.provisioned;
  cleared = h.cleared;
  deprovisioned = h.deprovisioned;
}

ready : (a b : Bool) → (not a || b) ≡ false → a ≡ true
ready a b h = ground arith

eq_of : (m n : ℕ) → (m == n) ≡ true → m ≡ n
eq_of m n h = ground arith

module _ (digest : EventPayload → ℕ) (c : ReleaseSettings) (e : Effects) (now : ℕ) where
  -- The first release with the key is the claimed one, then it ends as `f` writes it.
  claimed-Ends :
      (f : ReleaseRequest → ReleaseRequest) (r : ReleaseRequest) (rows : List ReleaseRequest)
      → find? (λ x. x.pk == r.pk) rows ≡ some r
      → ((x : ReleaseRequest) → (f x).pk ≡ x.pk)
      → Ends c e r (f (claim_release c now r))
      → Each (Ends c e) rows (
          update_first
            (λ x. x.pk == r.pk)
            f
            (update_first (λ x. x.pk == r.pk) (claim_release c now) rows))
  unfolding claim_release
  claimed-Ends f r rows found keeps ends =
      rw (update_first_twice (λ x. x.pk == r.pk) (claim_release c now) f (λ x. refl) rows) (
        Each-update_first (λ x. inl refl) (λ x. x.pk == r.pk) (λ x. f (claim_release c now x)) rows
          found ends)

  only_claimed-Ends :
      (r : ReleaseRequest) (rows : List ReleaseRequest)
      → find? (λ x. x.pk == r.pk) rows ≡ some r
      → is_completed_release r.status ≡ false
      → Each (Ends c e) rows (update_first (λ x. x.pk == r.pk) (claim_release c now) rows)
  unfolding claim_release is_completed_release
  only_claimed-Ends r rows found pending =
      Each-update_first (λ x. inl refl) _ (claim_release c now) rows found (inl (sym pending))

  finish-Ends :
      (o : Option String) (r : ReleaseRequest) (s : Ownership)
      → find? (λ x. x.pk == r.pk) s.releases ≡ some r
      → is_completed_release r.status ≡ false
      → revocation_error c e (claim_release c now r) ≡ o
      → Each
          (Ends c e)
          s.releases
          (finish_release digest c e r.pk o (record s {
            releases = update_first (λ x. x.pk == r.pk) (claim_release c now) s.releases;
          })).releases
  unfolding finish_release retry_release finalize_release finalize_writes complete_release
  finish-Ends (some error) r s found pending h =
      claimed-Ends (retry_release c.retry_max_seconds e.recorded_at error) r s.releases found
        (λ x. refl)
        (inl (
          retry_release-pending c.retry_max_seconds e.recorded_at error (claim_release c now r)
          ∙ sym pending))
  finish-Ends none r s found pending h =
      let claimed = update_first (λ x. x.pk == r.pk) (claim_release c now) s.releases in
      elim (Bool-cases (any (λ x. (x.pk == r.pk) && is_completed_release x.status) claimed)) [
        | inl done ↦ rw done (only_claimed-Ends r s.releases found pending)
        | inr open_still ↦ rw open_still (
            claimed-Ends (complete_release e.recorded_at) r s.releases found (λ x. refl)
              (inr (
                claim-IsRevoked c e now r
                  (revocation_error-IsRevoked c e (claim_release c now r) h))))
      ]

  found-Ends :
      (r : ReleaseRequest) (s : Ownership)
      → find? (λ x. x.pk == r.pk) s.releases ≡ some r
      → Each (Ends c e) s.releases (dispatch_found digest c e now r s).releases
  unfolding dispatch_found
  found-Ends r s found =
      elim (Bool-cases (not (is_claimable_release now r) || ltb now r.next_attempt_at)) [
        | inl skip ↦ rw skip (Each-refl (λ x. inl refl) s.releases)
        | inr go ↦ rw go (
            finish-Ends (revocation_error c e (claim_release c now r)) r s found
              (claimable-pending now r (ready (is_claimable_release now r) _ go)) refl)
      ]

  -- `dispatch_gateway_release` completes a release only when the edge has confirmed its reset before,
  -- provisioning is required, the retained policy has been cleared, and the credentials have been
  -- revoked; every other release is completed after the call exactly when it was before.
  pub dispatch_gateway_release-Ends :
      (pk : ℕ) (s : Ownership)
      → Each (Ends c e) s.releases (dispatch_gateway_release digest c e now pk s).releases
  unfolding dispatch_gateway_release
  dispatch_gateway_release-Ends pk s = elim (Option-cases (find? (λ r. r.pk == pk) s.releases)) [
    | inl h ↦ rw (dispatch_gateway_release, h) (Each-refl (λ x. inl refl) s.releases)
    | inr (r, h) ↦
        let same : r.pk ≡ pk = eq_of _ _ (find?-sound (λ x. x.pk == pk) s.releases h).1 in
        rw (dispatch_gateway_release, h)
          (found-Ends r s (subst (λ k. find? (λ x. x.pk == k) s.releases ≡ some r) (sym same) h))
  ]
