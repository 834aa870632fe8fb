-- ===== src/Api/Governance/Names.antt =====
-- The names of proposals and votes on the wire, of wallet-extension/src/api/sultanAPI.ts. The names that
-- every JavaScript object has, such as "constructor", are not modelled in the maps of names.
use xv.Prelude.{if◌then◌else◌, none, some, List, [], ◌∷◌, ◌++◌}
use xv.Prelude.Text.{lower_case, Text, codes, text_eq, strip_prefix}

pub data ProposalType : Type 0 where
  parameter_change software_upgrade community_pool text_proposal : ProposalType

pub data ProposalStatus : Type 0 where
  deposit_period voting_period proposal_passed proposal_rejected proposal_failed proposal_executed :
      ProposalStatus

pub data VoteOption : Type 0 where
  vote_yes vote_no vote_abstain vote_no_with_veto : VoteOption

-- map[name] || otherwise
abbrev pub named : {A : Type 0} → List (Text × A) → A → Text → A
named [] otherwise name = otherwise
named ((key, a) ∷ l) otherwise name =
    let rest = named l otherwise name in if text_eq key name then a else rest

unfoldable pub map_proposal_type : Text → ProposalType
map_proposal_type =
    named
      ((codes "ParameterChange", parameter_change)
        ∷ (codes "parameter_change", parameter_change)
        ∷ (codes "SoftwareUpgrade", software_upgrade)
        ∷ (codes "software_upgrade", software_upgrade)
        ∷ (codes "CommunityPool", community_pool)
        ∷ (codes "community_pool", community_pool)
        ∷ (codes "TextProposal", text_proposal)
        ∷ (codes "text", text_proposal)
        ∷ [])
      text_proposal

unfoldable pub map_proposal_status : Text → ProposalStatus
map_proposal_status =
    named
      ((codes "DepositPeriod", deposit_period)
        ∷ (codes "deposit_period", deposit_period)
        ∷ (codes "VotingPeriod", voting_period)
        ∷ (codes "voting_period", voting_period)
        ∷ (codes "Passed", proposal_passed)
        ∷ (codes "passed", proposal_passed)
        ∷ (codes "Rejected", proposal_rejected)
        ∷ (codes "rejected", proposal_rejected)
        ∷ (codes "Failed", proposal_failed)
        ∷ (codes "failed", proposal_failed)
        ∷ (codes "Executed", proposal_executed)
        ∷ (codes "executed", proposal_executed)
        ∷ [])
      voting_period

unfoldable pub map_vote_option : Text → VoteOption
map_vote_option =
    named
      ((codes "Yes", vote_yes)
        ∷ (codes "yes", vote_yes)
        ∷ (codes "No", vote_no)
        ∷ (codes "no", vote_no)
        ∷ (codes "Abstain", vote_abstain)
        ∷ (codes "abstain", vote_abstain)
        ∷ (codes "NoWithVeto", vote_no_with_veto)
        ∷ (codes "no_with_veto", vote_no_with_veto)
        ∷ [])
      vote_abstain

-- The names of the type VoteOption itself.
abbrev pub option_text : VoteOption → Text
option_text vote_yes = codes "Yes"
option_text vote_no = codes "No"
option_text vote_abstain = codes "Abstain"
option_text vote_no_with_veto = codes "NoWithVeto"

-- s.replace(old, new): the first place where `old` stands
abbrev pub replace_first : Text → Text → Text → Text
replace_first old new [] = []
replace_first old new (c ∷ s) =
    let rest = replace_first old new s in
    elim (strip_prefix old (c ∷ s)) [ none ↦ c ∷ rest | some behind ↦ new ++ behind ]

-- req.option.toLowerCase().replace('withveto', '_with_veto')
unfoldable pub vote_name : VoteOption → Text
vote_name o = replace_first (codes "withveto") (codes "_with_veto") (lower_case (option_text o))

-- typeMap
unfoldable pub type_name : ProposalType → Text
type_name parameter_change = codes "parameter_change"
type_name software_upgrade = codes "software_upgrade"
type_name community_pool = codes "community_pool"
type_name text_proposal = codes "text"
