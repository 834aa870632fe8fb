-- ===== src/Screens/Governance/Votes.antt =====
-- What a vote posts.
use xv.Prelude.{subst, ◌∷◌, [], ap, ℕ, ◌∙◌, some, false, ◌≡◌, refl}
use xv.Api.Ledger.Nonces.{PostsAfter, rest_api-PostsAfter}
use xv.Wallet.Accounts.Signing.{SignatureLaws, Built}
use xv.Screens.Signer.Posted.{sign_and_post-PostedSigned}
use xv.Screens.Governance.Actions.{try_vote, vote_with, handle_vote}
use xv.Prelude.Result.{Result, err, ok}
use xv.Api.Governance.{Proposal, vote_body, map_ok, vote, VoteRequest}
use xv.Api.Request.{ApiError, Request, Network, Trace, post, plain, num, str}
use xv.Api.Readers.{Readers}
use xv.Api.Ledger.{post_request}
use xv.Platform.{TextCodec}
use xv.Wallet.Accounts.{get_account, SultanAccount, SultanWallet, Packages}
use xv.Prelude.Text.{Text, codes, text_eq}
use xv.Platform.Floats.{Floats}
use xv.Api.Governance.Names.{
  VoteOption, vote_name, vote_yes, vote_no, vote_abstain, vote_no_with_veto,
}
use xv.Screens.Governance.{vote_data, vote_arguments, Governing}
use xv.Wallet.Amount.{format_sltn}
use xv.Prelude.Int.{pos}
use xv.Api.Governance.Numbers.{parse_int-to_string}

trace-map_ok : {A B : Type 0} (f : A → B) (x : Trace × Result ApiError A) → (map_ok f x).0 ≡ x.0
trace-map_ok f (t, ok a) = refl
trace-map_ok f (t, err e) = refl

-- The name of a choice on the wire.
abbrev pub wire_name : VoteOption → Text
wire_name vote_yes = codes "yes"
wire_name vote_no = codes "no"
wire_name vote_abstain = codes "abstain"
wire_name vote_no_with_veto = codes "no_with_veto"

-- The request for a vote, written out.
abbrev pub vote_request : Proposal → SultanAccount → VoteOption → ℕ → Request
vote_request p a choice units = record {
  endpoint = codes "/governance/vote";
  method = post;
  body = some (
      (codes "proposal_id", plain (num (pos p.id)))
      ∷ (codes "voter", plain (str a.address))
      ∷ (codes "option", plain (str (wire_name choice)))
      ∷ (codes "voting_power", plain (num (pos units)))
      ∷ []);
  timeout_ms = 30000;
}

vote_name_lem : (choice : VoteOption) → vote_name choice ≡ wire_name choice
unfolding vote_name
vote_name_lem vote_yes = refl
vote_name_lem vote_no = refl
vote_name_lem vote_abstain = refl
vote_name_lem vote_no_with_veto = refl

vote_request_lem :
    (p : Proposal) (a : SultanAccount) (choice : VoteOption) (units : ℕ)
    → post_request (codes "/governance/vote") (vote_body (vote_arguments p a choice (pos units)))
      ≡ vote_request p a choice units
unfolding vote_body
vote_request_lem p a choice units = rw (vote_name_lem choice, parse_int-to_string units) refl

module _ {J : Type 0} (readers : Readers J) (network : Network J) where
  vote-PostsAfter :
      (req : VoteRequest) (t : Trace)
      → PostsAfter t
          (post_request (codes "/governance/vote") (vote_body req))
          (vote readers network req t)
  unfolding vote
  vote-PostsAfter req t =
      let (n, bound, posted) =
        rest_api-PostsAfter (λ j. ok (readers.as_vote_status j)) network
          (post_request (codes "/governance/vote") (vote_body req)) t in
      (n, bound, trace-map_ok (λ status. text_eq status (codes "voted")) _ ∙ posted)

  module _ (codec : TextCodec) (packages : Packages) {F : Type 0} (floats : Floats F) where
    handle_vote_lem :
        (now : ℕ) (choice : VoteOption) (s : Governing) (w : SultanWallet) (a : SultanAccount)
        (p : Proposal)
        → s.signer.wallet ≡ some w
        → s.signer.current_account ≡ some a
        → s.form.selected_proposal ≡ some p
        → handle_vote readers network codec packages floats now choice s
          ≡ vote_with readers network codec packages floats now w a p choice s
    unfolding handle_vote
    handle_vote_lem now choice s w a p has_wallet has_account has_proposal =
        simp (has_wallet, has_account, has_proposal, handle_vote)

    trace-vote_with :
        (now : ℕ) (w : SultanWallet) (a : SultanAccount) (p : Proposal) (choice : VoteOption)
        (s : Governing)
        → floats.eq (floats.number (format_sltn s.staked)) (floats.of_ℕ 0) ≡ false
        → (vote_with readers network codec packages floats now w a p choice s).signer.trace
          ≡ (try_vote readers network codec packages now w a p choice s.staked s.signer.trace).0
    unfolding vote_with
    trace-vote_with now w a p choice s has_power = rw (has_power, vote_with) refl

    -- When signatures behave as their package documents, the account is one of a wallet made from a
    -- mnemonic, a proposal is selected, the stake is `units` and its print is not read as 0, choosing an
    -- option posts the vote at least once and at most three times, without a PIN. The request has four
    -- fields: the proposal's number, the account's address, the option's name, and the stake as a number;
    -- neither a signature nor a public key is in it.
    pub chosen_vote_is_posted :
        (laws : SignatureLaws packages) (w : SultanWallet) (built : Built codec packages w)
        (a : SultanAccount) (found : get_account a.index w ≡ some a) (now units : ℕ)
        (choice : VoteOption) (s : Governing) (p : Proposal)
        → s.signer.wallet ≡ some w
        → s.signer.current_account ≡ some a
        → s.form.selected_proposal ≡ some p
        → s.staked ≡ pos units
        → floats.eq (floats.number (format_sltn s.staked)) (floats.of_ℕ 0) ≡ false
        → PostsAfter s.signer.trace
            (vote_request p a choice units)
            ((handle_vote readers network codec packages floats now choice s).signer.trace, tt)
    unfolding try_vote
    chosen_vote_is_posted laws w built a found now units choice s p has_wallet has_account
          has_proposal stake has_power =
        let post_vote =
          λ (signature : Text). vote readers network (vote_arguments p a choice s.staked) in
        let (signature, verifies, same) =
          sign_and_post-PostedSigned codec packages laws w built a found (vote_data p a choice now)
            post_vote s.signer.trace in
        let request =
          ap
            (λ n. post_request (codes "/governance/vote") (vote_body (vote_arguments p a choice n)))
            stake
          ∙ vote_request_lem p a choice units in
        let done =
          ap (λ (x : Governing). x.signer.trace)
            (handle_vote_lem now choice s w a p has_wallet has_account has_proposal)
          ∙ trace-vote_with now w a p choice s has_power
          ∙ same in
        subst
          (λ (o : Request).
            PostsAfter s.signer.trace o
              ((handle_vote readers network codec packages floats now choice s).signer.trace, tt))
          request
          (let (n, bound, posted) =
              vote-PostsAfter (vote_arguments p a choice s.staked) s.signer.trace in
            (n, bound, done ∙ posted))
