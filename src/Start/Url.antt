-- ===== src/Start/Url.antt =====
-- The URL that cmd/api/main.go makes of the settings of the database.
use locker.Prelude.{ℕ, ◌≡◌, refl, ap, false, [], ◌∷◌, ◌++◌, All, Text, ◌==◌, arith}
use locker.Start.{db_url}
use locker.Start.Settings.{Config}

abbrev pub Lacks : ℕ → Text → Type 0
Lacks sep s = All (λ c. (c == sep) ≡ false) s

-- No part of the URL holds the byte that ends it.
pub record IsPlain (c : Config) : Type 0 where
  pub user : Lacks b':' c.db_user
  pub password : Lacks b'@' c.db_password
  pub host : Lacks b':' c.db_host
  pub port : Lacks b'/' c.db_port
  pub name : Lacks b'?' c.db_name

head_of : Text → ℕ
head_of [] = 0
head_of (c ∷ s) = c

tail_of : Text → Text
tail_of [] = []
tail_of (c ∷ s) = s

-- Up to a byte that neither text holds, and behind it.
cut_at :
    (sep : ℕ) (a b x y : Text)
    → Lacks sep a
    → Lacks sep b
    → a ++ sep ∷ x ≡ b ++ sep ∷ y
    → (a ≡ b) × (x ≡ y)
unfolding head_of tail_of
cut_at sep [] [] x y h k e = (refl, ap tail_of e)
cut_at sep [] (d ∷ b) x y h k e = absurd (ground (arith, k.0, ap head_of e))
cut_at sep (c ∷ a) [] x y h k e = absurd (ground (arith, h.0, ap head_of e))
cut_at sep (c ∷ a) (d ∷ b) x y h k e =
    let (same, rest) = cut_at sep a b x y h.1 k.1 (ap tail_of e) in
    (ground (arith, ap head_of e, same), rest)

-- Where no setting holds the byte that ends its part of the URL, the URL says what the settings are: two
-- configurations with the same URL have the same user, password, host, port and name.
pub db_url-settings :
    (c d : Config)
    → IsPlain c
    → IsPlain d
    → db_url c ≡ db_url d
    → (c.db_user ≡ d.db_user)
      × (c.db_password ≡ d.db_password)
      × (c.db_host ≡ d.db_host)
      × (c.db_port ≡ d.db_port)
      × (c.db_name ≡ d.db_name)
unfolding db_url tail_of
db_url-settings c d p q e =
    let behind_scheme =
      ap
        (λ s. tail_of (
          tail_of (
            tail_of
              (tail_of (tail_of (tail_of (tail_of (tail_of (tail_of (tail_of (tail_of s)))))))))))
        e in
    let (user, rest) = cut_at b':' c.db_user d.db_user _ _ p.user q.user behind_scheme in
    let (password, rest) = cut_at b'@' c.db_password d.db_password _ _ p.password q.password rest in
    let (host, rest) = cut_at b':' c.db_host d.db_host _ _ p.host q.host rest in
    let (port, rest) = cut_at b'/' c.db_port d.db_port _ _ p.port q.port rest in
    let (name, rest) = cut_at b'?' c.db_name d.db_name _ _ p.name q.name rest in
    (user, password, host, port, name)
