-- ===== src/Api/Governance/Votes.antt =====
-- A vote that was cast is read back.
use xv.Prelude.{◌∙◌, ap, refl, if◌then◌else◌, ℕ, Option, ◌∷◌, [], some, none, true, ◌≡◌}
use xv.Api.Request.{
  null, num, read_json, attempt_step, request_loop, Network, Trace, Body, Request, responded, plain,
  nested, str, sent, fetch_options, status_ok, rest_api,
}
use xv.Prelude.Result.{Result, ok}
use xv.Api.Governance.{vote_path, VoteRequest, get_user_vote, vote_body}
use xv.Api.Governance.Names.{
  vote_yes, vote_no, vote_abstain, vote_no_with_veto, VoteOption, vote_name, map_vote_option,
}
use xv.Prelude.Text.{text_eq, codes, Text}
use xv.Api.Readers.{RawVote, Readers}
use xv.Api.Ledger.{get_request}
use xv.Prelude.Decimal.{to_string}

-- The text of a body's field.
abbrev pub field_text : Text → Body → Option Text
field_text name [] = none
field_text name ((key, f) ∷ l) =
    let rest = field_text name l in
    if text_eq key name
    then elim f [
      | nested o ↦ none
      | plain p ↦ elim p [ null ↦ none | num n ↦ none | str s ↦ some s ]
    ]
    else rest

map_vote_option-vote_name : (o : VoteOption) → map_vote_option (vote_name o) ≡ o
unfolding map_vote_option vote_name
map_vote_option-vote_name vote_yes = refl
map_vote_option-vote_name vote_no = refl
map_vote_option-vote_name vote_abstain = refl
map_vote_option-vote_name vote_no_with_veto = refl

field_text-vote_body :
    (req : VoteRequest) → field_text (codes "option") (vote_body req) ≡ some (vote_name req.choice)
unfolding vote_body
field_text-vote_body req = refl

text_of :
    (req : VoteRequest) (v : RawVote)
    → field_text (codes "option") (vote_body req) ≡ some v.raw_option
    → v.raw_option ≡ vote_name req.choice
text_of req v h = cc (h, field_text-vote_body req)

-- A call whose first attempt is answered well sends one request.
rest_api-answered :
    {J : Type 0} {A : Type 0} (read : J → Result Text A) (network : Network J) (r : Request)
    (t : Trace) (s : ℕ) (j : J) (a : A)
    → network t (fetch_options r) ≡ responded s (ok j)
    → status_ok s ≡ true
    → read j ≡ ok a
    → rest_api read network r t ≡ (sent (fetch_options r) ∷ t, ok a)
unfolding rest_api
rest_api-answered read network r t s j a answered good parsed =
    rw (answered, good, parsed, request_loop, attempt_step, read_json) refl

module _ {J : Type 0} (readers : Readers J) (network : Network J) where
  -- When the node's answer to the query for a vote holds the option's name as the vote's body did, then
  -- the vote is read with the option that was chosen, whatever the option is, by one request.
  pub posted_vote_is_read :
      (req : VoteRequest) (t : Trace) (s : ℕ) (j : J) (v : RawVote)
      → network t (fetch_options (get_request (vote_path req.voted_proposal req.voting)))
        ≡ responded s (ok j)
      → status_ok s ≡ true
      → readers.as_vote j ≡ some v
      → field_text (codes "option") (vote_body req) ≡ some v.raw_option
      → get_user_vote readers network req.voted_proposal req.voting t ≡ (
        sent (fetch_options (get_request (vote_path req.voted_proposal req.voting))) ∷ t,
        some (record {
          proposal_id = req.voted_proposal;
          voter = v.raw_voter;
          option = req.choice;
          voting_power = to_string v.raw_voting_power;
        }),
      )
  unfolding get_user_vote
  posted_vote_is_read req t s j v answered good parsed name =
      rw
        (rest_api-answered (λ j. ok (readers.as_vote j)) network _ t s j (some v) answered good
          (ap ok parsed))
        (ap
          (λ o. (
            sent (fetch_options (get_request (vote_path req.voted_proposal req.voting))) ∷ t,
            some (record {
              proposal_id = req.voted_proposal;
              voter = v.raw_voter;
              option = o;
              voting_power = to_string v.raw_voting_power;
            }),
          ))
          (ap map_vote_option (text_of req v name) ∙ map_vote_option-vote_name req.choice))
