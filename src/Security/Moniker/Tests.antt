-- ===== src/Security/Moniker/Tests.antt =====
-- Monikers.
use xv.Prelude.{refl, ◌≡◌}
use xv.Prelude.Text.{codes, trim}
use xv.Security.Moniker.{sanitize_input, validate_moniker}
use xv.Security.Moniker.Kept.{accepted_moniker_is_stable}
use xv.Prelude.Result.{ok}

accepted_moniker_is_stable_example : validate_moniker (codes "bNode 7") ≡ ok (codes "bNode 7")
unfolding validate_moniker
accepted_moniker_is_stable_example =
    accepted_moniker_is_stable (codes " <b>Node 7") (codes "bNode 7") refl

handler_is_removed : sanitize_input (codes "x onclick =y") ≡ codes "x y"
unfolding sanitize_input trim
handler_is_removed = refl

protocol_comes_back : sanitize_input (codes "javaJAVAscript:script:x") ≡ codes "javascript:x"
unfolding sanitize_input trim
protocol_comes_back = refl
