-- ===== src/Tunnels/PublicUrl/Paths.antt =====
-- From a tunnel id to a path and back.
use looplink.Base.{ℕ, ◌≡◌, refl, true, false, some, [], ◌∷◌, ◌++◌, drop, length, arith}
use looplink.Text.{Text, to_lower, lower, is_empty, starts_with}
use looplink.Text.Laws.{length-to_lower, is_empty-to_lower}
use looplink.Tunnels.PublicUrl.{
  is_tunnel_id, all_hex, is_hex_digit, before_slash, after_slash, parse_tunnel_path,
  ParsedTunnelPath, tunnel_path_prefix,
}

before_slash_hex : (id rest : Text) → all_hex id ≡ true → before_slash (id ++ b'/' ∷ rest) ≡ id
unfolding before_slash
before_slash_hex [] rest h = refl
before_slash_hex (c ∷ id) rest h = ground (arith, before_slash_hex id rest)

after_slash_hex : (id rest : Text) → all_hex id ≡ true → after_slash (id ++ b'/' ∷ rest) ≡ rest
unfolding after_slash
after_slash_hex [] rest h = refl
after_slash_hex (c ∷ id) rest h = ground (arith, after_slash_hex id rest)

before_slash_all : (id : Text) → all_hex id ≡ true → before_slash id ≡ id
unfolding before_slash
before_slash_all [] h = refl
before_slash_all (c ∷ id) h = ground (arith, before_slash_all id)

after_slash_all : (id : Text) → all_hex id ≡ true → after_slash id ≡ []
unfolding after_slash
after_slash_all [] h = refl
after_slash_all (c ∷ id) h = ground (arith, after_slash_all id)

pub is_tunnel_id-all_hex :
    (id : Text) → is_tunnel_id id ≡ true → (all_hex id ≡ true) × (length id ≡ 32)
unfolding is_tunnel_id
is_tunnel_id-all_hex id h = ground arith

is_empty-append_cons : (s t : Text) (c : ℕ) → is_empty (s ++ c ∷ t) ≡ false
is_empty-append_cons [] t c = refl
is_empty-append_cons (d ∷ s) t c = refl

is_empty_long : (s : Text) → length s ≡ 32 → is_empty s ≡ false
is_empty_long [] h = absurd (omega arith)
is_empty_long (c ∷ s) h = refl

-- The path of a tunnel id with a rest behind it gives back the id, in lower case, and the rest as
-- the local path.
pub parse_tunnel_path_rest :
    (id rest : Text)
    → is_tunnel_id id ≡ true
    → parse_tunnel_path (tunnel_path_prefix ++ b'/' ∷ (id ++ b'/' ∷ rest))
      ≡ some (record { tunnel_id = to_lower id; local_path = b'/' ∷ rest })
unfolding parse_tunnel_path
parse_tunnel_path_rest id rest h =
    let hex = (is_tunnel_id-all_hex id h).0 in
    rw (before_slash_hex id rest hex)
      (rw (after_slash_hex id rest hex) (rw (is_empty-append_cons id rest b'/') (rw h)))

-- The bare path of a tunnel id gives back the id and the root.
pub parse_tunnel_path_bare :
    (id : Text)
    → is_tunnel_id id ≡ true
    → parse_tunnel_path (tunnel_path_prefix ++ b'/' ∷ id)
      ≡ some (record { tunnel_id = to_lower id; local_path = b'/' ∷ [] })
unfolding parse_tunnel_path is_tunnel_id
parse_tunnel_path_bare id h =
    let hex = is_tunnel_id-all_hex id h in
    rw (before_slash_all id hex.0)
      (rw (after_slash_all id hex.0) (rw (is_empty_long id hex.1) (ground arith)))

lower-is_hex_digit : (c : ℕ) → is_hex_digit c ≡ true → is_hex_digit (lower c) ≡ true
unfolding lower
lower-is_hex_digit c h = ground arith

pub all_hex-to_lower : (s : Text) → all_hex s ≡ true → all_hex (to_lower s) ≡ true
unfolding to_lower
all_hex-to_lower [] h = refl
all_hex-to_lower (c ∷ s) h = ground (arith, lower-is_hex_digit c, all_hex-to_lower s)

is_tunnel_id-to_lower : (s : Text) → is_tunnel_id s ≡ true → is_tunnel_id (to_lower s) ≡ true
unfolding is_tunnel_id
is_tunnel_id-to_lower s h =
    ground (arith, length-to_lower s, all_hex-to_lower s, is_empty-to_lower s)

-- Every path that is taken for a tunnel's names a tunnel id in lower case, and leaves a local path
-- that begins with a slash.
pub parse_tunnel_path_sound :
    (pathname : Text) (p : ParsedTunnelPath)
    → parse_tunnel_path pathname ≡ some p
    → (is_tunnel_id p.tunnel_id ≡ true) × (starts_with p.local_path (b'/' ∷ []) ≡ true)
unfolding parse_tunnel_path
parse_tunnel_path_sound pathname p h =
    let remainder = drop 8 pathname in
    ground (arith, is_tunnel_id-to_lower (before_slash remainder))
