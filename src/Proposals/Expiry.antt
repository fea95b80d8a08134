-- ===== src/Proposals/Expiry.antt =====
-- Reading a proposal: `lockProposal`, `normalizeExpired` and `findOne` of
-- src/proposals/proposals.service.ts. A read expires the proposals whose validity has run out.
use harpia_api.Prelude.{
  ℕ, Bool, true, false, ◌&&◌, Option, none, some, List, [], ◌∷◌, ltb, ◌==◌, if◌then◌else◌,
}
use harpia_api.Table.{find_first, find_many, modify}
use harpia_api.Store.{
  SalesProposalStatus, ProposalRow, Database, AuditAction, EntityType, Action, Error, pure,
  or_raise, gets, transaction, modify_db, record_one, ◌>>=◌, ◌>>◌,
}

abbrev pub proposal_key : ℕ → ℕ → ProposalRow → Bool
proposal_key id org p = p.id == id && p.organization_id == org

unfoldable pub lock_proposal : ℕ → ℕ → Action ProposalRow
lock_proposal id org = do
  or_raise (← gets (λ db. find_first (proposal_key id org) db.proposals)) Error.proposal_not_found

-- ENVIADA or EM_NEGOCIACAO
abbrev pub is_open : SalesProposalStatus → Bool
is_open SalesProposalStatus.enviada = true
is_open SalesProposalStatus.em_negociacao = true
is_open _ = false

-- `validUntil < now`
abbrev pub is_past : ℕ → Option ℕ → Bool
is_past now none = false
is_past now (some t) = ltb t now

abbrev pub has_lapsed : ℕ → ProposalRow → Bool
has_lapsed now p = is_open p.status && is_past now p.valid_until

abbrev pub set_proposal : ℕ → (ProposalRow → ProposalRow) → Database → Database
set_proposal id f db = record db { proposals = modify (λ p. p.id == id) f db.proposals }

abbrev pub lapsed : ProposalRow → ProposalRow
lapsed p = record p { status = SalesProposalStatus.expirada }

unfoldable pub lapse : ℕ → ProposalRow → Action (Unit {0})
lapse org p = do
  modify_db (set_proposal p.id lapsed)
  record_one (record {
    organization_id = org;
    actor_user_id = none;
    action = AuditAction.proposal_expired;
    entity_type = EntityType.sales_proposal;
    entity_id = some p.id;
  })

unfoldable pub expire_proposal : ℕ → ℕ → ℕ → Action (Unit {0})
unfolding lock_proposal lapse
expire_proposal now id org =
    transaction (do p ← lock_proposal id org; if has_lapsed now p then lapse org p else pure tt)

unfoldable pub expire_proposals : ℕ → ℕ → List ProposalRow → Action (Unit {0})
unfolding expire_proposal
expire_proposals now org [] = pure tt
expire_proposals now org (p ∷ ps) = expire_proposal now p.id org >> expire_proposals now org ps

abbrev pub given : Option ℕ → ℕ → Bool
given none id = true
given (some k) id = id == k

-- `normalizeExpired(organizationId, id?)`
unfoldable pub normalize_expired : ℕ → ℕ → Option ℕ → Action (Unit {0})
unfolding expire_proposals
normalize_expired now org id = do
  candidates ← gets (λ db.
      find_many (λ p. p.organization_id == org && given id p.id && has_lapsed now p) db.proposals)
  expire_proposals now org candidates

-- `findOne`
unfoldable pub find_one : ℕ → ℕ → ℕ → Action ProposalRow
unfolding normalize_expired lock_proposal
find_one now id org = do normalize_expired now org (some id); lock_proposal id org
