-- ===== src/Tests/KeyTests.antt =====
-- API keys at concrete inputs.
use golink_url_shortener.Base.{
  Text, codes, text_eq, is_empty, is_space, trim_left, trim_right, trim_space, ◌≡◌, refl, true,
  none, some, [], ◌∷◌,
}
use golink_url_shortener.Db.Sql.{exec}
use golink_url_shortener.Db.ApiKeyRepo.{create, insert_key}
use golink_url_shortener.Server.Handler.{ApiKeyResponse}
use golink_url_shortener.Server.ApiKeys
use golink_url_shortener.Server.ApiKeys.{
  as_key, CreateKeyRequest, api_key_to_response, scope_of, store_key, authenticate,
}
use golink_url_shortener.Tests.Fixtures.{db, alice}

-- A stand-in for the hash.
abbrev hash : Text → Text
hash raw = b'#' ∷ raw

abbrev wanted : CreateKeyRequest
wanted = record { name = codes " ci "; read_only = none }

abbrev shown_key : ApiKeyResponse
shown_key = record {
  id = 1;
  name = codes "ci";
  created_by = codes "Alice@example.com";
  created_at = 20;
  last_used = none;
  read_only = true;
}

store_key-authenticate_example :
    (authenticate hash (store_key hash (codes "go_x") alice wanted db).1 (codes "go_x") [] none
      ≡ some (as_key hash wanted))
    × (codes "go_x" ≡ codes "go_x")
unfolding store_key create insert_key exec api_key_to_response is_empty trim_space trim_left
    trim_right is_space text_eq
store_key-authenticate_example =
    ApiKeys.store_key-authenticate hash (codes "go_x") alice wanted db shown_key (codes "go_x") []
      refl refl refl
