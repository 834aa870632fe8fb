-- ===== src/Api/Governance/Tests.antt =====
-- Examples for proposals and votes.
use xv.Prelude.{refl, ◌∷◌, [], some, none, true, ◌≡◌}
use xv.Prelude.Text.{codes}
use xv.Prelude.Result.{ok}
use xv.Prelude.Decimal.{to_string}
use xv.Prelude.Int.{negsuc}
use xv.Api.Request.{rest_api, fetch_options, sent}
use xv.Api.Governance.{
  VoteRequest, get_user_vote, vote_path, vote_body, get_proposal, vote, parse_int,
}
use xv.Api.Governance.Names.{
  vote_name, parameter_change, software_upgrade, text_proposal, ProposalType, vote_no_with_veto,
  community_pool, type_name, map_proposal_type,
}
use xv.Api.Governance.Votes.{posted_vote_is_read}
use xv.Api.Samples.{number_readers, node, no_node}
use xv.Api.Ledger.{get_request}

abbrev veto : VoteRequest
veto = record {
  voted_proposal = 12;
  voting = codes "sultan1a";
  choice = vote_no_with_veto;
  power = codes "250 SLTN";
}

parse_int_stops : parse_int (codes " -12x") ≡ some (negsuc 11)
unfolding parse_int
parse_int_stops = refl

vote_counts : (vote number_readers node veto []).1 ≡ ok true
unfolding vote rest_api
vote_counts = refl

submitted_type_is_read : (t : ProposalType) → map_proposal_type (type_name t) ≡ t
unfolding map_proposal_type type_name
submitted_type_is_read parameter_change = refl
submitted_type_is_read software_upgrade = refl
submitted_type_is_read community_pool = refl
submitted_type_is_read text_proposal = refl

proposals_without_node : (get_proposal number_readers no_node 1 []).1 ≡ none
unfolding get_proposal rest_api
proposals_without_node = refl

posted_vote_is_read_example : get_user_vote number_readers node 12 (codes "sultan1a") [] ≡ (
  sent (fetch_options (get_request (vote_path 12 (codes "sultan1a")))) ∷ [],
  some (record {
    proposal_id = 12;
    voter = codes "sultan1a";
    option = vote_no_with_veto;
    voting_power = to_string 7;
  }),
)
unfolding vote_body vote_name
posted_vote_is_read_example =
    posted_vote_is_read number_readers node veto [] 200 7
      (record {
        raw_voter = codes "sultan1a";
        raw_option = codes "no_with_veto";
        raw_voting_power = 7;
      })
      refl refl refl refl
