-- ===== src/Defi/Tests.antt =====
-- A swap over a network that fails.
use xv.Prelude.{ℕ, [], none, refl, ◌≡◌}
use xv.Api.Samples.{no_node}
use xv.Defi.Retried.{SwapEnds, swap_is_posted_again}
use xv.Defi.{execute_swap, demo_tokens, fetch_api, get_tokens, SwapParams}
use xv.Prelude.Text.{codes}

abbrev a_swap : SwapParams
a_swap = record {
  user = codes "sultan1a";
  input_denom = codes "usltn";
  output_denom = codes "uusdc";
  input_amount = codes "5";
  min_output = codes "4";
}

swap_is_posted_again_example :
    (n : ℕ) × SwapEnds no_node a_swap
      (codes "ab")
      []
      (execute_swap no_node a_swap (codes "ab") [])
      n
swap_is_posted_again_example = swap_is_posted_again no_node a_swap (codes "ab") []

no_node_shows_demo_tokens : (get_tokens no_node (λ j. none) []).1 ≡ demo_tokens
unfolding get_tokens fetch_api
no_node_shows_demo_tokens = refl
