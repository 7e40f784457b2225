-- ===== src/Newsrc.antt =====
-- The state of one group as a .newsrc line: libtrn/include/trn/ngdata.h and the small methods of
-- libtrn/ngdata.cpp. `m_rc_line` holds the name, the subscription mark (0 while it is hidden) and
-- the numbers of the articles read. The links and sort number of the group do not occur here.
pub mod Ranges
pub mod Lookup
pub mod Rewrite
pub mod Insert
pub mod Expire
pub mod ToRead
pub mod AddRead
pub mod CatchUp
use trn.Base.{
  ℕ, zero, suc, ◌+◌, ◌-◌, Bool, true, false, List, [], ◌∷◌, Bytes, ◌==◌, if◌then◌else◌, length,
  take, drop, min,
}
use trn.Base.Int.{ℤ, pos, negsuc}

pub record NewsgroupData : Type 0 where
  pub source : ℕ
  pub rc_line : Bytes
  pub abs_first : ℤ
  pub ng_max : ℤ
  pub to_read : ℤ
  pub num_offset : ℕ
  pub subscribe_char : ℕ
  pub rc_changed : Bool

-- TR_ONE, TR_NONE, TR_UNSUB, TR_IGNORE, TR_BOGUS and UNSUBSCRIBED_CHAR of rcstuff.h.
abbrev pub tr_one : ℤ
tr_one = pos 1

abbrev pub tr_none : ℤ
tr_none = pos 0

abbrev pub tr_unsub : ℤ
tr_unsub = negsuc 0

abbrev pub tr_bogus : ℤ
tr_bogus = negsuc 2

abbrev pub unsubscribed_char : ℕ
unsubscribed_char = b'!'

-- `m_rc_line[i] = c`
unfoldable pub set_byte : Bytes → ℕ → ℕ → Bytes
set_byte [] i c = []
set_byte (x ∷ s) zero c = c ∷ s
set_byte (x ∷ s) (suc i) c = x ∷ set_byte s i c

-- The bytes up to a NUL, of `NewsgroupData::rc_line`.
unfoldable pub up_to_nul : Bytes → Bytes
up_to_nul [] = []
up_to_nul (c ∷ s) = let rest = up_to_nul s in if c == 0 then [] else c ∷ rest

-- `NewsgroupData::rc_line`, which cuts `m_rc_line`, the field of this name.
abbrev pub visible_line : NewsgroupData → Bytes
visible_line np = up_to_nul np.rc_line

unfoldable pub rc_numbers : NewsgroupData → Bytes
rc_numbers np = drop (min np.num_offset (length np.rc_line)) np.rc_line

unfoldable pub rc_name : NewsgroupData → Bytes
rc_name np = if np.num_offset == 0 then np.rc_line else take (np.num_offset - 1) np.rc_line

unfoldable pub hide_subscribe_char : NewsgroupData → NewsgroupData
hide_subscribe_char np =
    if np.num_offset == 0
    then np
    else record np { rc_line = set_byte np.rc_line (np.num_offset - 1) 0 }

unfoldable pub show_subscribe_char : NewsgroupData → NewsgroupData
show_subscribe_char np =
    if np.num_offset == 0
    then np
    else record np { rc_line = set_byte np.rc_line (np.num_offset - 1) np.subscribe_char }

unfoldable pub mark_changed : NewsgroupData → NewsgroupData
mark_changed np = record np { rc_changed = true }

unfoldable pub unsubscribe : NewsgroupData → NewsgroupData
unfolding mark_changed
unsubscribe np = mark_changed (record np { subscribe_char = unsubscribed_char })

unfoldable pub set_rc_line : NewsgroupData → Bytes → ℤ → NewsgroupData
unfolding hide_subscribe_char mark_changed
set_rc_line np line unread =
    let hidden = hide_subscribe_char (record np { rc_line = line }) in
    mark_changed (record hidden {
      to_read = if np.subscribe_char == unsubscribed_char then tr_unsub else unread;
    })
