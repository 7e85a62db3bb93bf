-- ===== src/Proc/Signal.antt =====
-- kernel/proc/signal/signal.h and signal_handler.cpp: the signals of a process. A pending set and a mask
-- are words with bit s - 1 for signal s. The lock is held from the first to the last line of each
-- operation.
pub mod Frames
pub mod Dispatch
pub mod Pending
pub mod Masks
pub mod Invariant
pub mod Return
mod Tests
use hobby_os.Prelude.{
  ℕ, zero, suc, ◌+◌, ◌-◌, ◌^◌, Bool, true, false, not, ◌&&◌, ◌||◌, Option, none, some, List, [],
  ◌∷◌, map, ℤ, pos, negsuc, ltb, leb, ◌==◌, if◌then◌else◌, get_or, set, replicate, add32, sub32,
  bit_and, bit_or, complement,
}

abbrev pub sig_kill : ℕ
sig_kill = 9

abbrev pub sig_stop : ℕ
sig_stop = 19

abbrev pub nsig : ℕ
nsig = 32

abbrev pub sig_dfl : ℕ
sig_dfl = 0

abbrev pub sig_ign : ℕ
sig_ign = 1

pub data SigDefaultAction : Type 0 where
  term ign core stop cont : SigDefaultAction

-- `sigDefaultAction`: the groups of the `switch` that answer the same.
unfoldable pub sig_default_action : ℕ → SigDefaultAction
sig_default_action signum =
    if leb 3 signum && leb signum 8 || signum == 11
    then core
    else if signum == 17
    then ign
    else if signum == 18
    then cont
    else if leb 19 signum && leb signum 22
    then stop
    else term

abbrev pub sig_unblockable : ℕ → Bool
sig_unblockable signum = signum == sig_kill || signum == sig_stop

abbrev pub sig_bit : ℕ → ℕ
sig_bit signum = if leb 1 signum && ltb signum nsig then 2 ^ (signum - 1) else 0

pub record SignalAction : Type 0 where
  pub handler : ℕ
  pub flags : ℕ
  pub restorer : ℕ
  pub mask : ℕ

abbrev pub default_action : SignalAction
default_action = record { handler = sig_dfl; flags = 0; restorer = 0; mask = 0 }

pub record SignalHandler : Type 0 where
  pub ref_count : ℕ
  pub pending : ℕ
  pub default_mask : ℕ
  pub actions : List SignalAction

abbrev pub init : SignalHandler
init = record {
  ref_count = 1;
  pending = 0;
  default_mask = 0;
  actions = replicate nsig default_action;
}

unfoldable pub clone : SignalHandler → SignalHandler
clone sh = record init { actions = sh.actions; default_mask = sh.default_mask }

unfoldable pub acquire : SignalHandler → SignalHandler
acquire sh = record sh { ref_count = add32 sh.ref_count 1 }

unfoldable pub release : SignalHandler → Bool × SignalHandler
release sh = let left = sub32 sh.ref_count 1 in (left == 0, record sh { ref_count = left })

-- `signum < 1 || signum >= NSIG` is refused.
abbrev pub in_range : ℤ → Option ℕ
in_range (pos n) = if leb 1 n && ltb n nsig then some n else none
in_range (negsuc n) = none

abbrev pub action_of : SignalHandler → ℕ → SignalAction
action_of sh s = get_or sh.actions s default_action

-- `~mask`
abbrev pub unmasked : ℕ → ℕ
unmasked mask = complement 64 mask

-- `~(sigBit(SIGKILL) | sigBit(SIGSTOP))`
abbrev pub blockable : ℕ
blockable = complement 64 (bit_or (sig_bit sig_kill) (sig_bit sig_stop))

unfoldable pub send : SignalHandler → ℤ → SignalHandler
send sh signum = elim (in_range signum) [
  | none ↦ sh
  | some s ↦
      if not (sig_unblockable s) && (action_of sh s).handler == sig_ign
      then sh
      else record sh { pending = bit_or sh.pending (sig_bit s) }
]

unfoldable pub has_pending : SignalHandler → ℕ → Bool
has_pending sh thread_mask = not (bit_and sh.pending (unmasked thread_mask) == 0)

-- The `while` of `dequeue` from a bit on, with n steps before it gives up.
abbrev pub first_bit : ℕ → ℕ → ℕ → ℕ
first_bit deliverable b zero = b
first_bit deliverable b (suc n) =
    let rest = first_bit deliverable (suc b) n in
    if bit_and deliverable (2 ^ b) == 0 then rest else b

unfoldable pub dequeue : SignalHandler → ℕ → ℕ × SignalHandler
dequeue sh thread_mask =
    let deliverable = bit_and sh.pending (unmasked thread_mask) in
    if deliverable == 0
    then (0, sh)
    else (let b = first_bit deliverable 0 (nsig - 1) in
        (b + 1, record sh { pending = bit_and sh.pending (unmasked (2 ^ b)) }))

-- `setAction` for a signal in range and an action, and the action that it writes to a non-null `oldact`.
abbrev pub set_checked :
    SignalHandler → ℕ → SignalAction → (ℤ × SignalHandler) × Option SignalAction
set_checked sh s a = if sig_unblockable s then ((negsuc 0, sh), none) else (
  (pos 0, record sh { actions = set sh.actions s (record a { mask = bit_and a.mask blockable }) }),
  some (action_of sh s),
)

unfoldable pub set_action :
    SignalHandler → ℤ → Option SignalAction → (ℤ × SignalHandler) × Option SignalAction
set_action sh signum act = elim (in_range signum) [
  | none ↦ ((negsuc 0, sh), none)
  | some s ↦ elim act [ none ↦ ((pos 0, sh), some (action_of sh s)) | some a ↦ set_checked sh s a ]
]

unfoldable pub get_action : SignalHandler → ℤ → Option SignalAction
get_action sh signum = elim (in_range signum) [ none ↦ none | some s ↦ some (action_of sh s) ]

abbrev pub reset_action : SignalAction → SignalAction
reset_action a = if a.handler == sig_ign then a else default_action

unfoldable pub reset_for_exec : SignalHandler → SignalHandler
reset_for_exec sh = record sh { actions = map reset_action sh.actions }
