-- ===== src/Firewall/Conn.antt =====
-- mvirt-ebpf/programs/src/lib.rs: `ConnTrackKey` and `ConnTrackEntry`, and the map `CONN_TRACK` of a
-- program. The kernel's hash map is the list of its entries.
use mathlib.Core.Path.{subst}
use mvirt.Prelude.{
  ℕ, ◌≡◌, refl, ap, Bool, true, false, Option, none, some, List, [], ◌∷◌, length, ltb, nat_eq, ◌&&◌,
  if◌then◌else◌, is_some, arith, sym, Bool-cases, inl, inr,
}

-- The padding is left out: it is always zero.
pub record ConnTrackKey : Type 0 where
  pub src_addr : List ℕ
  pub dst_addr : List ℕ
  pub src_port : ℕ
  pub dst_port : ℕ
  pub protocol : ℕ
  pub ip_version : ℕ

unfoldable pub reverse : ConnTrackKey → ConnTrackKey
reverse key = record {
  src_addr = key.dst_addr;
  dst_addr = key.src_addr;
  src_port = key.dst_port;
  dst_port = key.src_port;
  protocol = key.protocol;
  ip_version = key.ip_version;
}

pub record ConnTrackEntry : Type 0 where
  pub state : ℕ
  pub flags : ℕ
  pub last_seen_ns : ℕ
  pub packet_count : ℕ

abbrev pub ct_state_new : ℕ
ct_state_new = 0

abbrev pub ct_state_established : ℕ
ct_state_established = 1

abbrev pub ct_flag_seen_reply : ℕ
ct_flag_seen_reply = 1

unfoldable pub with_state : ℕ → ℕ → ConnTrackEntry
with_state state last_seen_ns = record {
  state = state;
  flags = 0;
  last_seen_ns = last_seen_ns;
  packet_count = 1;
}

unfoldable pub bytes_eq : List ℕ → List ℕ → Bool
bytes_eq [] [] = true
bytes_eq [] (y ∷ ys) = false
bytes_eq (x ∷ xs) [] = false
bytes_eq (x ∷ xs) (y ∷ ys) = nat_eq x y && bytes_eq xs ys

unfoldable pub key_eq : ConnTrackKey → ConnTrackKey → Bool
key_eq a b =
    bytes_eq a.src_addr b.src_addr
    && (bytes_eq a.dst_addr b.dst_addr
        && (nat_eq a.src_port b.src_port
            && (nat_eq a.dst_port b.dst_port
                && (nat_eq a.protocol b.protocol && nat_eq a.ip_version b.ip_version))))

abbrev pub ConnTrack : Type 0
ConnTrack = List (ConnTrackKey × ConnTrackEntry)

unfoldable pub get_entry : ConnTrackKey → ConnTrack → Option ConnTrackEntry
unfolding key_eq bytes_eq
get_entry key [] = none
get_entry key ((k, e) ∷ rest) = if key_eq key k then some e else get_entry key rest

unfoldable pub replace_entry : ConnTrackKey → ConnTrackEntry → ConnTrack → ConnTrack
unfolding key_eq bytes_eq
replace_entry key entry [] = []
replace_entry key entry ((k, e) ∷ rest) =
    let others = replace_entry key entry rest in
    if key_eq key k then (k, entry) ∷ rest else (k, e) ∷ others

abbrev pub max_entries : ℕ
max_entries = 65536

-- `CONN_TRACK.insert(key, entry, 0)`. The error for a full map is ignored.
unfoldable pub insert_entry : ConnTrackKey → ConnTrackEntry → ConnTrack → ConnTrack
unfolding get_entry replace_entry
insert_entry key entry track =
    if is_some (get_entry key track)
    then replace_entry key entry track
    else if ltb (length track) max_entries
    then (key, entry) ∷ track
    else track

bytes_eq_sound : (xs ys : List ℕ) → bytes_eq xs ys ≡ true → xs ≡ ys
unfolding bytes_eq
bytes_eq_sound [] [] h = refl
bytes_eq_sound [] (y ∷ ys) h = absurd (ground arith)
bytes_eq_sound (x ∷ xs) [] h = absurd (ground arith)
bytes_eq_sound (x ∷ xs) (y ∷ ys) h =
    let same : x ≡ y = ground arith in
    rw same (ap (λ l. y ∷ l) (bytes_eq_sound xs ys (ground arith)))

key_eq_sound : (a b : ConnTrackKey) → key_eq a b ≡ true → a ≡ b
unfolding key_eq
key_eq_sound a b h =
    let src = bytes_eq_sound a.src_addr b.src_addr (ground arith) in
    let dst = bytes_eq_sound a.dst_addr b.dst_addr (ground arith) in
    let src_port : a.src_port ≡ b.src_port = ground arith in
    let dst_port : a.dst_port ≡ b.dst_port = ground arith in
    let protocol : a.protocol ≡ b.protocol = ground arith in
    let ip_version : a.ip_version ≡ b.ip_version = ground arith in
    λ i. record {
      src_addr = src i;
      dst_addr = dst i;
      src_port = src_port i;
      dst_port = dst_port i;
      protocol = protocol i;
      ip_version = ip_version i;
    }

-- A predicate holds of all keys.
abbrev pub AllKeys : (ConnTrackKey → Type 0) → ConnTrack → Type 0
AllKeys P [] = Unit {0}
AllKeys P ((k, e) ∷ rest) = P k × AllKeys P rest

module _ (P : ConnTrackKey → Type 0) where
  pub AllKeys-mono :
      {Q : ConnTrackKey → Type 0} (track : ConnTrack)
      → ((k : ConnTrackKey) → P k → Q k)
      → AllKeys P track
      → AllKeys Q track
  AllKeys-mono [] weaken all = tt
  AllKeys-mono ((k, e) ∷ rest) weaken all = (weaken k all.0, AllKeys-mono rest weaken all.1)

  pub get_entry-AllKeys :
      (key : ConnTrackKey) (track : ConnTrack)
      → AllKeys P track
      → is_some (get_entry key track) ≡ true
      → P key
  unfolding get_entry
  get_entry-AllKeys key [] all there = absurd (ground arith)
  get_entry-AllKeys key ((k, e) ∷ rest) all there = elim (Bool-cases (key_eq key k)) [
    | inl same ↦ subst P (sym (key_eq_sound key k same)) all.0
    | inr other ↦ get_entry-AllKeys key rest all.1 (ground (arith, other))
  ]

  replace_entry-AllKeys :
      (key : ConnTrackKey) (entry : ConnTrackEntry) (track : ConnTrack)
      → AllKeys P track
      → AllKeys P (replace_entry key entry track)
  unfolding replace_entry
  replace_entry-AllKeys key entry [] all = tt
  replace_entry-AllKeys key entry ((k, e) ∷ rest) all = elim (Bool-cases (key_eq key k)) [
    | inl same ↦ rw same all
    | inr other ↦ rw other (all.0, replace_entry-AllKeys key entry rest all.1)
  ]

  pub insert_entry-AllKeys :
      (key : ConnTrackKey) (entry : ConnTrackEntry) (track : ConnTrack)
      → P key
      → AllKeys P track
      → AllKeys P (insert_entry key entry track)
  unfolding insert_entry
  insert_entry-AllKeys key entry track new all = elim (Bool-cases (is_some (get_entry key track))) [
    | inl there ↦ rw there (replace_entry-AllKeys key entry track all)
    | inr absent ↦ elim (Bool-cases (ltb (length track) max_entries)) [
      | inl room ↦ rw (absent, room) (new, all)
      | inr full ↦ rw (absent, full) all
    ]
  ]
