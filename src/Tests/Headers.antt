-- ===== src/Tests/Headers.antt =====
-- Authorization headers, and texts in UTF-16 units.
use Prim.Native.String.{◌++◌ as ◌append◌}
use crew_link.Base.{some, [], ◌∷◌, ◌≡◌, refl}
use crew_link.Auth.Bearer.{after_word, lower, group_of, bearer_token}
use crew_link.Server.Requests.{cors_origin, hosts, split_commas}
use crew_link.Text.{utf16_take, is_space, is_line_end, has_line_end, trim_start, trim_end}

spaces_around : bearer_token "bEARER  abc " ≡ "abc"
unfolding bearer_token after_word lower group_of trim_start trim_end has_line_end is_line_end
    is_space
spaces_around = refl

another_scheme : bearer_token "Basic abc" ≡ ""
unfolding bearer_token after_word lower
another_scheme = refl

no_token : bearer_token "Bearer   " ≡ ""
unfolding bearer_token after_word lower group_of trim_start trim_end has_line_end is_line_end
    is_space
no_token = refl

first_six : utf16_take 6 "abcdefgh" ≡ "abcdef"
unfolding utf16_take
first_six = refl

-- A list of allowed origins, with white space.
two_hosts : cors_origin (some "a.de, b.de") ≡ hosts ("a.de" ∷ "b.de" ∷ [])
unfolding cors_origin split_commas trim_start trim_end is_space
two_hosts = refl
