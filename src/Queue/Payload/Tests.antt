-- ===== src/Queue/Payload/Tests.antt =====
-- The credential pattern on sample keys.
use deployguardai.Prelude.{◌≡◌, refl, true, false}
use deployguardai.Queue.Payload.{is_sensitive}

camel_case : is_sensitive "githubToken" ≡ true
unfolding is_sensitive
camel_case = refl

inner_word : is_sensitive "tokenize_all" ≡ false
unfolding is_sensitive
inner_word = refl

two_words : is_sensitive "ssh_PRIVATE_KEY_id" ≡ false
unfolding is_sensitive
two_words = refl

lower_two_words : is_sensitive "ssh_private_key_id" ≡ true
unfolding is_sensitive
lower_two_words = refl
