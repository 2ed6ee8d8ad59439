-- ===== src/Tests/Tokens.antt =====
-- Claiming a bootstrap token.
use rosemary_virsree.Prelude.{ℕ, ◌≡◌, refl, none, some, List, [], ◌∷◌}
use rosemary_virsree.Prelude.Int.{pos}
use rosemary_virsree.Prelude.Text.{codes}
use rosemary_virsree.Prelude.Results.{err, token_unusable}
use rosemary_virsree.Model.{BootstrapToken, Db}
use rosemary_virsree.Store.Keys.{claim_bootstrap}
use rosemary_virsree.Store.Steps.{Op, run}
use rosemary_virsree.Store.Steps.Bootstrap.{claim_bootstrap-once}
use rosemary_virsree.Tests.Sample.{before, tables}

abbrev token : BootstrapToken
token = record {
  id = codes "bst_1";
  name = codes "deploy";
  token_hash = codes "hash";
  max_quota = pos 100;
  expires_at = 50;
  used_at = none;
}

abbrev offered : Db
offered = record before { bootstrap_tokens = token ∷ [] }

abbrev used : BootstrapToken
used = record token { used_at = some 10 }

abbrev claimed : Db
claimed = record before { bootstrap_tokens = used ∷ [] }

-- Another token is made, and the first one is claimed again.
abbrev later : List (ℕ × Op)
later =
    (11, Op.new_bootstrap (record token { id = codes "bst_2"; token_hash = codes "other" }))
    ∷ (12, Op.claim token.token_hash)
    ∷ []

claim_bootstrap-once_example :
    claim_bootstrap 13 token.token_hash (run later claimed) ≡ err token_unusable
unfolding tables claim_bootstrap
claim_bootstrap-once_example =
    claim_bootstrap-once 10 13 token.token_hash offered (used, claimed) later refl
