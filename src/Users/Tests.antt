-- ===== src/Users/Tests.antt =====
-- Runs of the users repository and of the caller's identity at small inputs.
use Prim.Native.String.{◌++◌ as str_append}
use codegen_product_kit.Base.{
  length, ◌≡◌, ◌↔◌, refl, String, none, some, [], ◌∷◌, ok, same_pair, arith,
}
use codegen_product_kit.Users.{find_channel, status_of, active, Tables, Identity, get_channel}
use codegen_product_kit.Users.Access.{IsConsistent}
use codegen_product_kit.Users.Caller.Presented.{IsHeaderText, Names, caller_identity_iff}
use codegen_product_kit.Users.Caller.{
  Request, codes, single_header, has_colon, has_capability, channel_identity, canonical,
  caller_identity, caller_identity_inj,
}

abbrev one_user : Tables
one_user = record {
  users = record { id = 1; status = active } ∷ [];
  channels = record { user_id = 1; channel = "tg"; external_id = "7" } ∷ [];
  next_id = 2;
}

one_user-IsConsistent : IsConsistent one_user
unfolding find_channel status_of
one_user-IsConsistent = record {
  unique = (refl, tt);
  owned = (refl, tt);
  below = (ground arith, tt);
}

abbrev request : Request
request = record {
  capability = "secret" ∷ [];
  user_channel = "tg" ∷ [];
  user_external_id = "7" ∷ [];
}

verified : caller_identity "secret" request one_user ≡ ok "tg:7"
unfolding caller_identity canonical has_colon codes single_header has_capability channel_identity
    get_channel same_pair find_channel status_of
verified = refl

caller_identity_iff_example : (caller_identity "secret" request one_user ≡ ok "tg:7") ↔ (
    (request.capability ≡ "secret" ∷ [])
    × IsHeaderText (length (codes "secret")) "secret"
    × ((c : String) × (e : String) × Names request c e
        × ((i : Identity) × (get_channel c e one_user ≡ some i) × (i.status ≡ active))
        × ("tg:7" ≡ str_append c (str_append ":" e))))
caller_identity_iff_example = caller_identity_iff "secret" request one_user "tg:7"

caller_identity_inj_example : channel_identity request ≡ channel_identity request
caller_identity_inj_example =
    caller_identity_inj "secret" request request one_user one_user "tg:7" verified verified

abbrev no_users : Tables
no_users = record { users = []; channels = []; next_id = 1 }

unseen : get_channel "tg" "7" no_users ≡ none
unfolding get_channel find_channel
unseen = refl
