-- ===== src/Uip/State.antt =====
-- The global state of uip.c and the layout of the headers in `uip_buf` (struct uip_tcpip_hdr of
-- uip.h). The scratch variables `c`, `opt`, `tmp16` and `uip_acc32`, which are written before each
-- use, are locals of the functions here.
use Prim.Native.String.{String}
use fx_ip.Base.{
  ℕ, ◌+◌, ◌-◌, ◌*◌, ◌/◌, ◌%◌, ◌^◌, Bool, ◌&&◌, List, [], ◌∷◌, ◌==◌, if◌then◌else◌, Mem, poke, blit,
}
use fx_ip.Uip.Seq.{Seq}

-- `uip_ipaddr_t`: two 16-bit words
pub record Ip : Type 0 where
  pub hi : ℕ
  pub lo : ℕ

abbrev pub uip_ipaddr_cmp : Ip → Ip → Bool
uip_ipaddr_cmp a b = a.hi == b.hi && a.lo == b.lo

-- `struct uip_conn`, without the state of the application
pub record Conn : Type 0 where
  pub ripaddr : Ip
  pub lport : ℕ
  pub rport : ℕ
  pub rcv_nxt : Seq
  pub snd_nxt : Seq
  pub len : ℕ
  pub mss : ℕ
  pub initialmss : ℕ
  pub sa : ℕ
  pub sv : ℕ
  pub rto : ℕ
  pub tcpstateflags : ℕ
  pub timer : ℕ
  pub nrtx : ℕ

-- The variables of uip.c. `app` is all that belongs to the application. The pointers `uip_conn`,
-- `uip_appdata` and `uip_sappdata` are indices, into `uip_conns` and into `uip_buf`.
pub record Stack (A : Type 0) : Type 0 where
  pub buf : Mem
  pub len : ℕ
  pub slen : ℕ
  pub appdata : ℕ
  pub sappdata : ℕ
  pub flags : ℕ
  pub conn : ℕ
  pub conns : ℕ → Conn
  pub listenports : Mem
  pub hostaddr : Ip
  pub ipid : ℕ
  pub iss : Seq
  pub lastport : ℕ
  pub stat : Mem
  pub log : List String
  pub app : A

-- a bit, `x & m` for a power of two `m`, as a test; and `x |= m`
abbrev pub has_bit : ℕ → ℕ → Bool
has_bit x m = (x / m) % 2 == 1

abbrev pub set_bit : ℕ → ℕ → ℕ
set_bit x m = if has_bit x m then x else x + m

-- the 16-bit word at an offset, most significant byte first, and a write of it
abbrev pub get16 : Mem → ℕ → ℕ
get16 m i = m i * 256 + m (i + 1)

abbrev pub bytes16 : ℕ → List ℕ
bytes16 v = v / 256 ∷ v % 256 ∷ []

abbrev pub bytes_ip : Ip → List ℕ
bytes_ip a = a.hi / 256 ∷ a.hi % 256 ∷ a.lo / 256 ∷ a.lo % 256 ∷ []

abbrev pub bytes_seq : Seq → List ℕ
bytes_seq s = s.b0 ∷ s.b1 ∷ s.b2 ∷ s.b3 ∷ []

abbrev pub get_ip : Mem → ℕ → Ip
get_ip m i = record { hi = get16 m i; lo = get16 m (i + 2) }

abbrev pub get_seq : Mem → ℕ → Seq
get_seq m i = record { b0 = m i; b1 = m (i + 1); b2 = m (i + 2); b3 = m (i + 3) }

-- `u16_t` subtraction
abbrev pub sub16 : ℕ → ℕ → ℕ
sub16 a b = (a + 2 ^ 16 - b) % 2 ^ 16

module _ {A : Type 0} where
  -- bytes written into `uip_buf` from an offset on
  abbrev pub fill : ℕ → List ℕ → Stack A → Stack A
  fill i bytes s = record s { buf = blit s.buf i bytes }

  -- `++` on a counter of `uip_stat`
  abbrev pub count : ℕ → Stack A → Stack A
  count k s = record s { stat = poke s.stat k ((s.stat k + 1) % 2 ^ 16) }

  -- `uip_log`
  abbrev pub say : String → Stack A → Stack A
  say msg s = record s { log = msg ∷ s.log }

  -- a change of the connection with index `i`
  abbrev pub update : ℕ → (Conn → Conn) → Stack A → Stack A
  update i f s = record s { conns = λ j. if j == i then f (s.conns j) else s.conns j }
