-- ===== src/Json.antt =====
-- src/iperf_api.c, iperf_util.c: the calls of the JSON library, and what they rely on. The library is
-- a parameter; an object is one of its values, a member is known by its name.
pub mod Members
pub mod Frame
pub mod Channel
pub mod Trip
pub mod Library
pub mod Local
mod Examples
use iperf3_windows_msvc.Prelude.{
  ℕ, ◌+◌, ◌≤◌, ◌^◌, ◌≡◌, Bool, true, false, List, Option, none, some, ◌==◌,
}
use iperf3_windows_msvc.Prelude.Int.{ℤ, pos_part, neg_part}

abbrev pub Bytes : Type 0
Bytes = List ℕ

-- The names of the members that the two sides exchange.
pub data Key : Type 0 where
  tcp udp sctp omit server_affinity time num blockcount mss nodelay parallel reverse : Key
  bidirectional window len bandwidth fqrate pacing_timer burst gso gso_dg_size : Key
  gso_bf_size gro gro_bf_size tos flowlabel title extra_data congestion congestion_used : Key
  get_server_output udp_counters_64bit repeating_payload zerocopy skip_rx_copy : Key
  client_version id bytes retransmits jitter errors omitted_errors packets omitted_packets : Key
  start_time end_time dont_fragment cpu_util_total cpu_util_user cpu_util_system : Key
  sender_has_retransmits streams server_output_json server_output_text : Key

abbrev pub key_code : Key → ℕ
key_code Key.tcp = 0
key_code Key.udp = 1
key_code Key.sctp = 2
key_code Key.omit = 3
key_code Key.server_affinity = 4
key_code Key.time = 5
key_code Key.num = 6
key_code Key.blockcount = 7
key_code Key.mss = 8
key_code Key.nodelay = 9
key_code Key.parallel = 10
key_code Key.reverse = 11
key_code Key.bidirectional = 12
key_code Key.window = 13
key_code Key.len = 14
key_code Key.bandwidth = 15
key_code Key.fqrate = 16
key_code Key.pacing_timer = 17
key_code Key.burst = 18
key_code Key.gso = 19
key_code Key.gso_dg_size = 20
key_code Key.gso_bf_size = 21
key_code Key.gro = 22
key_code Key.gro_bf_size = 23
key_code Key.tos = 24
key_code Key.flowlabel = 25
key_code Key.title = 26
key_code Key.extra_data = 27
key_code Key.congestion = 28
key_code Key.congestion_used = 29
key_code Key.get_server_output = 30
key_code Key.udp_counters_64bit = 31
key_code Key.repeating_payload = 32
key_code Key.zerocopy = 33
key_code Key.skip_rx_copy = 34
key_code Key.client_version = 35
key_code Key.id = 36
key_code Key.bytes = 37
key_code Key.retransmits = 38
key_code Key.jitter = 39
key_code Key.errors = 40
key_code Key.omitted_errors = 41
key_code Key.packets = 42
key_code Key.omitted_packets = 43
key_code Key.start_time = 44
key_code Key.end_time = 45
key_code Key.dont_fragment = 46
key_code Key.cpu_util_total = 47
key_code Key.cpu_util_user = 48
key_code Key.cpu_util_system = 49
key_code Key.sender_has_retransmits = 50
key_code Key.streams = 51
key_code Key.server_output_json = 52
key_code Key.server_output_text = 53

abbrev pub same_key : Key → Key → Bool
same_key a b = key_code a == key_code b

-- A member's value; `number` is its double.
pub data Item (F : Type 0) : Type 0 where
  boolean : Bool → Item F
  number : F → Item F
  text : Bytes → Item F
  other : Item F

-- The calls of the library. `create` and `print` may fail for lack of memory, `create` then for all
-- objects of a message; `parse` fails on a text that is no JSON.
pub record Json : Type 1 where
  pub F : Type 0
  pub Obj : Type 0
  pub of_int : ℤ → F
  pub to_int : F → ℤ  -- valueint, an int64_t
  pub create : Option Obj
  pub add : Obj → Key → Item F → Obj
  pub get : Obj → Key → Option (Item F)
  pub add_array : Obj → Key → List Obj → Obj
  pub get_array : Obj → Key → Option (List Obj)
  pub add_object : Obj → Key → Obj → Obj
  pub get_object : Obj → Key → Option Obj
  pub print : Obj → Option Bytes
  pub parse : Bytes → Option Obj
  pub alloc : ℕ → Bool  -- whether calloc(3) gives memory

-- An integer that a double holds exactly.
abbrev pub IsExact : ℤ → Type 0
IsExact n = pos_part n + neg_part n ≤ 2 ^ 53

-- What the code relies on: a member that was added is found, stays the one that is found, and hides no
-- other one; a text that was printed is read back as an object with the same members; an integer up to
-- 2 ^ 53 survives the double.
pub record IsLibrary (lib : Json) : Type 0 where
  pub get_create : (o : lib.Obj) → lib.create ≡ some o → (k : Key) → lib.get o k ≡ none
  pub get_added :
      (o : lib.Obj) (k l : Key) (v : Item lib.F)
      → same_key k l ≡ true
      → lib.get o l ≡ none
      → lib.get (lib.add o k v) l ≡ some v
  pub get_kept :
      (o : lib.Obj) (k l : Key) (v u : Item lib.F)
      → lib.get o l ≡ some u
      → lib.get (lib.add o k v) l ≡ some u
  pub get_others :
      (o : lib.Obj) (k l : Key) (v : Item lib.F)
      → same_key k l ≡ false
      → lib.get (lib.add o k v) l ≡ lib.get o l
  pub parse_print :
      (o : lib.Obj) (str : Bytes)
      → lib.print o ≡ some str
      → (p : lib.Obj) × (lib.parse str ≡ some p) × ((k : Key) → lib.get p k ≡ lib.get o k)
  pub exact : (n : ℤ) → IsExact n → lib.to_int (lib.of_int n) ≡ n

module _ (lib : Json) where
  -- iperf_cJSON_GetObjectItemType; the one for cJSON_True takes any boolean.
  unfoldable pub get_boolean : lib.Obj → Key → Option Bool
  get_boolean o k = elim (lib.get o k) [
    | none ↦ none
    | some v ↦ elim v [ boolean b ↦ some b | _ ↦ none ]
  ]

  unfoldable pub get_number : lib.Obj → Key → Option lib.F
  get_number o k = elim (lib.get o k) [
    | none ↦ none
    | some v ↦ elim v [ number x ↦ some x | _ ↦ none ]
  ]

  unfoldable pub get_text : lib.Obj → Key → Option Bytes
  get_text o k = elim (lib.get o k) [ none ↦ none | some v ↦ elim v [ text s ↦ some s | _ ↦ none ] ]
