-- ===== src/Mail/EmailAddress.antt =====
-- src/mail/EmailAddress.cpp. The encoder of punycode is a parameter.
use nawa.Common.{
  ℕ, ◌+◌, Bool, false, not, ◌&&◌, ◌||◌, List, [], ◌∷◌, ◌++◌, leb, ◌==◌, if◌then◌else◌, is_empty,
  Bytes, codes, npos, find_first_of, substr,
}
use nawa.Util.Strings.{split_string, to_lower}
use nawa.Connection.Response.{one_of, all_of}

pub record EmailAddress : Type 0 where
  pub name : Bytes
  pub address : Bytes

-- The address where it does not have two parts, and else the parts with the second one encoded.
encode_parts : (Bytes → Bytes) → Bytes → List Bytes → Bytes
encode_parts punycode_encode address (user ∷ domain ∷ []) = user ++ b'@' ∷ punycode_encode domain
encode_parts punycode_encode address parts = address

unfoldable pub apply_punycode_to_domain : (Bytes → Bytes) → Bytes → Bytes
unfolding encode_parts
apply_punycode_to_domain punycode_encode address =
    encode_parts punycode_encode address (split_string address b'@' false)

unfoldable pub get : (Bytes → Bytes) → EmailAddress → Bool → Bool → Bytes
get punycode_encode a include_name apply_punycode =
    (if include_name && not (is_empty a.name) then a.name ++ 32 ∷ [] else [])
    ++ b'<'
      ∷ ((if apply_punycode then apply_punycode_to_domain punycode_encode a.address else a.address)
          ++ b'>' ∷ [])

abbrev is_alphanumeric : ℕ → Bool
is_alphanumeric c = (leb b'a' (to_lower c) && leb (to_lower c) b'z') || (leb b'0' c && leb c b'9')

is_user_char : ℕ → Bool
is_user_char c = is_alphanumeric c || one_of c (codes "_!#$%&'*+/=?`{|}~^.-")

is_domain_char : ℕ → Bool
is_domain_char c = is_alphanumeric c || one_of c (codes ".-")

-- The pattern [user characters]+@[domain characters]+ matches the whole address.
unfoldable pub is_valid : (Bytes → Bytes) → EmailAddress → Bool
unfolding is_user_char is_domain_char
is_valid punycode_encode a =
    let address = apply_punycode_to_domain punycode_encode a.address in
    let pos = find_first_of b'@' address in
    let user = substr address 0 pos in
    let domain = substr address (pos + 1) npos in
    not (is_empty address)
    && (not (pos == npos)
        && ((not (is_empty user) && all_of is_user_char user)
            && (not (is_empty domain) && all_of is_domain_char domain)))
