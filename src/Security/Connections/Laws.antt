-- ===== src/Security/Connections/Laws.antt =====
-- The limiter against the list of the live connections' addresses.
use looplink.Base.{
  ℕ, suc, ◌+◌, ◌-◌, ◌≤◌, ◌<◌, ◌≡◌, refl, List, [], ◌∷◌, leb, if◌then◌else◌, ite, dec_le, arith,
  length,
}
use looplink.JsMap
use looplink.JsMap.Laws.{get-set, get-delete}
use looplink.Text.{Text, text_dec, text_key}
use looplink.Security.Connections.{
  ConnectionLimiter, AdmitResult, ok, global_limit, ip_limit, init, count_for, try_admit, release,
}

abbrev pub count : Text → List Text → ℕ
count ip [] = 0
count ip (x ∷ xs) = let rest = count ip xs in ite (text_dec ip x) (suc rest) rest

-- One connection of the address ends.
abbrev pub remove_one : Text → List Text → List Text
remove_one ip [] = []
remove_one ip (x ∷ xs) = let rest = remove_one ip xs in ite (text_dec ip x) xs (x ∷ rest)

pub record Tracks (l : ConnectionLimiter) (live : List Text) : Type 0 where
  pub counted : (ip : Text) → count_for l ip ≡ count ip live
  pub totalled : l.total ≡ length live

-- What the limiter promises: a connection is let in while both ceilings leave room for it.
abbrev pub verdict : ConnectionLimiter → List Text → Text → AdmitResult
verdict l live ip =
    ite (dec_le l.max_global (length live)) global_limit
      (ite (dec_le l.max_per_ip (count ip live)) ip_limit ok)

abbrev pub admitted : AdmitResult → Text → List Text → List Text
admitted ok ip live = ip ∷ live
admitted _ ip live = live

pub count-remove_one :
    (ip j : Text) (xs : List Text)
    → count j (remove_one ip xs) ≡ ite (text_dec ip j) (count j xs - 1) (count j xs)
count-remove_one ip j [] = ground arith
count-remove_one ip j (x ∷ xs) = ground (arith, count-remove_one ip j xs)

count_pos : (ip x : Text) (xs : List Text) → 0 < count ip (remove_one x xs) → 0 < count ip xs
count_pos ip x xs h = ground (arith, count-remove_one x ip xs)

pub count-le-length : (ip : Text) (xs : List Text) → count ip xs ≤ length xs
count-le-length ip [] = omega arith
count-le-length ip (x ∷ xs) = ground (arith, count-le-length ip xs)

pub length-remove_one :
    (ip : Text) (xs : List Text)
    → length (remove_one ip xs) ≡ (if leb (count ip xs) 0 then length xs else length xs - 1)
length-remove_one ip [] = refl
length-remove_one ip (x ∷ xs) = ground (arith, length-remove_one ip xs, count-le-length ip xs)

-- No connection is live in a new limiter.
pub init-Tracks : (g p : ℕ) → Tracks (init g p) []
unfolding init count_for JsMap.get
init-Tracks g p = record { counted = λ ip. refl; totalled = refl }

-- Where the limiter tracks the live connections, an attempt is let in exactly while both ceilings
-- leave room, the global one tried first, and the limiter tracks the live connections afterwards.
pub try_admit-Tracks :
    (l : ConnectionLimiter) (live : List Text) (ip : Text)
    → Tracks l live
    → ((try_admit l ip).1 ≡ verdict l live ip)
      × Tracks (try_admit l ip).0 (admitted (try_admit l ip).1 ip live)
unfolding try_admit
try_admit-Tracks l live ip t = (
  ground (arith, t.counted ip),
  record {
    counted = λ j.
        ground (arith, t.counted ip, t.counted j, get-set ip j (count_for l ip + 1) l.counts_by_ip);
    totalled = ground arith;
  },
)

-- Where the limiter tracks the live connections, a release takes one live connection of the address off the books, or changes nothing if there is none.
pub release-Tracks :
    (l : ConnectionLimiter) (live : List Text) (ip : Text)
    → Tracks l live
    → Tracks (release l ip) (remove_one ip live)
unfolding release count_for
release-Tracks l live ip t = record {
  counted = λ j. ground (
    arith,
    t.counted ip,
    t.counted j,
    count-remove_one ip j live,
    get-delete ip j l.counts_by_ip,
    get-set ip j (count_for l ip - 1) l.counts_by_ip,
  );
  totalled = ground (arith, t.counted ip, length-remove_one ip live);
}

-- Both ceilings are respected.
pub record Within (l : ConnectionLimiter) : Type 0 where
  pub global : l.total ≤ l.max_global
  pub per_ip : (ip : Text) → count_for l ip ≤ l.max_per_ip

pub init-Within : (g p : ℕ) → Within (init g p)
unfolding init count_for JsMap.get
init-Within g p = record { global = omega arith; per_ip = λ ip. omega arith }

pub try_admit-Within : (l : ConnectionLimiter) (ip : Text) → Within l → Within (try_admit l ip).0
unfolding try_admit
try_admit-Within l ip w = record {
  global = ground arith;
  per_ip = λ j.
      ground (arith, w.per_ip j, w.per_ip ip, get-set ip j (count_for l ip + 1) l.counts_by_ip);
}

pub release-Within : (l : ConnectionLimiter) (ip : Text) → Within l → Within (release l ip)
unfolding release count_for
release-Within l ip w = record {
  global = ground arith;
  per_ip = λ j. ground (
    arith,
    w.per_ip j,
    w.per_ip ip,
    get-delete ip j l.counts_by_ip,
    get-set ip j (count_for l ip - 1) l.counts_by_ip,
  );
}

abbrev pub SameCaps : ConnectionLimiter → ConnectionLimiter → Type 0
SameCaps l m = (m.max_global ≡ l.max_global) × (m.max_per_ip ≡ l.max_per_ip)

pub init-caps : (g p : ℕ) → ((init g p).max_global ≡ g) × ((init g p).max_per_ip ≡ p)
unfolding init
init-caps g p = (refl, refl)

pub try_admit-SameCaps : (l : ConnectionLimiter) (ip : Text) → SameCaps l (try_admit l ip).0
unfolding try_admit
try_admit-SameCaps l ip = ground arith

pub release-SameCaps : (l : ConnectionLimiter) (ip : Text) → SameCaps l (release l ip)
unfolding release
release-SameCaps l ip = ground arith
