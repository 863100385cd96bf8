-- ===== src/Ingest/Tests.antt =====
-- Runs of the claim sentinels' parser.
use re_git.Base.{◌≡◌, refl, codes, [], ◌∷◌}
use re_git.Ingest.Claims.{extract_claims}

extract_claims_example :
    extract_claims (codes "Intro\n  Claim : one \nclaim:\n\n two\nno claim: x\nCLAIM:three")
    ≡ codes "one" ∷ codes "two" ∷ codes "three" ∷ []
unfolding extract_claims
extract_claims_example = refl
