-- ===== src/Api/Samples.antt =====
-- A node of numbers, for the examples.
use xv.Prelude.{ℕ, ◌∷◌, [], some, none}
use xv.Prelude.Result.{ok}
use xv.Prelude.Text.{codes}
use xv.Api.Readers.{Readers, RawProposal}
use xv.Api.Request.{Network, thrown, responded, type_error}

-- Every response is a number: a nonce, a vote's power.
abbrev pub number_readers : Readers ℕ
number_readers = record {
  read_balance = λ n.
      ok (record { balance_address = codes "sultan1a"; balance_amount = 50; balance_nonce = n });
  read_delegations = λ n. ok (
      record {
        delegator_address = codes "sultan1a";
        validator_address = codes "sultanval1";
        amount = n;
        rewards_accumulated = 2;
      }
      ∷ record {
        delegator_address = codes "sultan1a";
        validator_address = codes "sultanval2";
        amount = 10;
        rewards_accumulated = 3;
      }
      ∷ []);
  read_hash = λ n. ok (codes "hash");
  as_proposals = λ n. sample_proposal ∷ [];
  as_proposal = λ n. sample_proposal;
  as_vote = λ n. some (record {
    raw_voter = codes "sultan1a";
    raw_option = codes "no_with_veto";
    raw_voting_power = n;
  });
  as_vote_status = λ n. codes "voted";
  as_proposal_id = λ n. n;
}
  where
    sample_proposal : RawProposal
    sample_proposal = record {
      raw_id = 1;
      raw_proposer = codes "sultan1a";
      raw_title = codes "t";
      raw_description = codes "d";
      raw_proposal_type = codes "community_pool";
      raw_status = codes "passed";
      raw_submit_height = 2;
      raw_submit_time = 3;
      raw_voting_end_height = 4;
      raw_total_deposit = 5;
      raw_final_tally = none;
    }

-- A node that answers, and one that cannot be reached.
abbrev pub node : Network ℕ
node t f = responded 200 (ok 7)

abbrev pub no_node : Network ℕ
no_node t f = thrown type_error
