-- ===== src/UnitHolds/Proposals/Expiry.antt =====
-- The expiry of proposals, `send` and `reject` of src/proposals/proposals.service.ts and the
-- commercial invariant.
use harpia_api.Prelude.{
  ℕ, ◌≡◌, refl, Option, some, List, [], ◌∷◌, arith, Text, Bool-cases, inl, inr,
}
use harpia_api.Table.{find_first}
use harpia_api.Store.{
  ProposalRow, Database, Actor, Action, state_of, ◌>>=◌, ◌>>◌, Ensures, state_of-Ensures,
  Ensures-found, Ensures-get, Ensures-or_raise, Ensures-then, Ensures-transaction, Ensures-write,
  Ensures-pure, Ensures-guard, Ensures-guarded, Ensures-recorded_one,
}
use harpia_api.Proposals.Expiry.{
  proposal_key, lock_proposal, has_lapsed, lapse, lapsed, expire_proposal, expire_proposals,
  normalize_expired, find_one,
}
use harpia_api.Proposals.Requests.{assert_current_and_valid, send, sent, reject, rejected}
use harpia_api.UnitHolds.Accounts.{IsConsistent}
use harpia_api.UnitHolds.Proposals.Counts.{rewrite_proposal}

pub Ensures-lock_proposal :
    {B : Type 0} {Q : B → Database → Type 0} {E : Database → Type 0} (id org : ℕ)
    (f : ProposalRow → Action B) (db : Database)
    → ((p : ProposalRow)
        → find_first (proposal_key id org) db.proposals ≡ some p
        → Ensures Q E (f p db))
    → E db
    → Ensures Q E ((lock_proposal id org >>= f) db)
unfolding lock_proposal
Ensures-lock_proposal id org f db h x = Ensures-found _ _ _ _ h x

expire_proposal-Ensures :
    (now id org : ℕ) (db : Database)
    → IsConsistent db
    → Ensures (λ _. IsConsistent) IsConsistent (expire_proposal now id org db)
unfolding expire_proposal lapse
expire_proposal-Ensures now id org db valid =
    Ensures-transaction _ _
      (Ensures-lock_proposal _ _ _ _
        (λ p found. elim (Bool-cases (has_lapsed now p)) [
          | inl e ↦ rw e (
              Ensures-write _ _ _ (
                Ensures-recorded_one _ _ (
                  rewrite_proposal p.id lapsed (λ x. refl) (λ x. refl) (λ x h. ground arith)
                    valid)))
          | inr e ↦ rw e (Ensures-pure tt db valid)
        ])
        tt)
      valid

expire_proposals-Ensures :
    (now org : ℕ) (ps : List ProposalRow) (db : Database)
    → IsConsistent db
    → Ensures (λ _. IsConsistent) IsConsistent (expire_proposals now org ps db)
unfolding expire_proposals
expire_proposals-Ensures now org [] db valid = Ensures-pure tt db valid
expire_proposals-Ensures now org (p ∷ ps) db valid =
    Ensures-then (λ _. IsConsistent) _ _ _ (expire_proposal-Ensures now p.id org db valid)
      (λ _ d. expire_proposals-Ensures now org ps d)

pub normalize_expired-Ensures :
    (now org : ℕ) (id : Option ℕ) (db : Database)
    → IsConsistent db
    → Ensures (λ _. IsConsistent) IsConsistent (normalize_expired now org id db)
unfolding normalize_expired
normalize_expired-Ensures now org id db valid =
    Ensures-get _ _ _ (expire_proposals-Ensures now org _ db valid)

pub find_one-Ensures :
    (now id org : ℕ) (db : Database)
    → IsConsistent db
    → Ensures (λ _. IsConsistent) IsConsistent (find_one now id org db)
unfolding find_one lock_proposal
find_one-Ensures now id org db valid =
    Ensures-then (λ _. IsConsistent) _ _ _ (normalize_expired-Ensures now org (some id) db valid)
      (λ _ d known. Ensures-get _ _ _ (Ensures-or_raise _ _ _ (λ a e. known) known))

-- `assertCurrentAndValid` only reads.
pub Ensures-assert :
    {B : Type 0} {Q : B → Database → Type 0} {E : Database → Type 0} (now : ℕ) (p : ProposalRow)
    (n : Action B) (db : Database)
    → Ensures Q E (n db)
    → E db
    → Ensures Q E ((assert_current_and_valid now p >> n) db)
unfolding assert_current_and_valid
Ensures-assert now p n db h x =
    Ensures-then (λ _ d. d ≡ db) _ _ _
      (Ensures-guard _ _ _ _ (λ _. Ensures-guarded _ _ _ (λ _. refl) x) x) (λ _ d e. rw e h)

-- Whatever becomes of a request to send a proposal, the tables stay balanced.
pub send-IsConsistent :
    (now id : ℕ) (actor : Actor) (db : Database)
    → IsConsistent db
    → IsConsistent (state_of (send now id actor db))
unfolding send
send-IsConsistent now id actor db valid = state_of-Ensures IsConsistent _ (
    Ensures-then (λ _. IsConsistent) _ _ _
      (normalize_expired-Ensures now actor.organization_id (some id) db valid)
      (λ _ d known.
        Ensures-then (λ _. IsConsistent) _ _ _
          (Ensures-transaction _ _
            (Ensures-lock_proposal _ _ _ _
              (λ p found.
                Ensures-guard _ _ _ _
                  (λ _.
                    Ensures-assert now p _ _
                      (Ensures-write _ _ _ (
                        Ensures-recorded_one _ _ (
                          rewrite_proposal id (sent now actor) (λ x. refl) (λ x. refl)
                            (λ x h. ground arith) known)))
                      tt)
                  tt)
              tt)
            known)
          (λ _ d'. find_one-Ensures now id actor.organization_id d')))

-- Whatever becomes of a request to reject a proposal, the tables stay balanced.
pub reject-IsConsistent :
    (now id : ℕ) (actor : Actor) (reason : Text) (db : Database)
    → IsConsistent db
    → IsConsistent (state_of (reject now id actor reason db))
unfolding reject
reject-IsConsistent now id actor reason db valid = state_of-Ensures IsConsistent _ (
    Ensures-then (λ _. IsConsistent) _ _ _
      (normalize_expired-Ensures now actor.organization_id (some id) db valid)
      (λ _ d known.
        Ensures-then (λ _. IsConsistent) _ _ _
          (Ensures-transaction _ _
            (Ensures-lock_proposal _ _ _ _
              (λ p found.
                Ensures-guard _ _ _ _
                  (λ _. Ensures-write _ _ _ (
                    Ensures-recorded_one _ _ (
                      rewrite_proposal id (rejected now actor reason) (λ x. refl) (λ x. refl)
                        (λ x h. ground arith) known)))
                  tt)
              tt)
            known)
          (λ _ d'. find_one-Ensures now id actor.organization_id d')))
