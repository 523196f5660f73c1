-- ===== src/Resources/Channels.antt =====
-- The dialog of an alert group has from one to sixteen rows, so that too many channels is never what it
-- complains of.
use cronova.Base.{
  ℕ, zero, suc, ◌+◌, ◌≤◌, ◌≡◌, ◌↔◌, refl, ap, Bool, true, false, not, List, [], ◌∷◌, any, all, All,
  length, length-append, Option, none, some, Text, is_empty, trim, ltb, leb, arith,
}
use cronova.Dag.Validate.{notify_re}
use cronova.Resources.Vars.{cfg_key_re}
use cronova.Resources.Groups.{
  Channel, Group, blank_channel, GroupDialog, open_group, set_channel, remove_channel, GroupEvent,
  named, url_typed, format_chosen, channel_removed, channel_added, group_step, group_run,
  bad_channels, save_group, group_name, sent_channels, save_dialog,
}

-- From one row to sixteen.
abbrev pub IsRoomy : GroupDialog → Type 0
IsRoomy s = (1 ≤ length s.chans) × (length s.chans ≤ 16)

length-set_channel :
    (i : ℕ) (f : Channel → Channel) (cs : List Channel) → length (set_channel i f cs) ≡ length cs
unfolding set_channel
length-set_channel i f [] = refl
length-set_channel zero f (c ∷ cs) = refl
length-set_channel (suc i) f (c ∷ cs) = omega (arith, length-set_channel i f cs)

length-remove_channel :
    (i : ℕ) (cs : List Channel)
    → (length (remove_channel i cs) ≤ length cs) × (length cs ≤ 1 + length (remove_channel i cs))
unfolding remove_channel
length-remove_channel i [] = omega arith
length-remove_channel zero (c ∷ cs) = omega arith
length-remove_channel (suc i) (c ∷ cs) = omega (arith, length-remove_channel i cs)

group_step-IsRoomy : (e : GroupEvent) (s : GroupDialog) → IsRoomy s → IsRoomy (group_step e s)
unfolding group_step
group_step-IsRoomy (named v) s h =
    elim s.editing as (λ o. IsRoomy (elim o [ none ↦ record s { name_val = v } | some g ↦ s ])) [
      | none ↦ h
      | some g ↦ h
    ]
group_step-IsRoomy (url_typed i v) s h =
    omega (arith, length-set_channel i (λ (c : Channel). record c { url = v }) s.chans)
group_step-IsRoomy (format_chosen i v) s h =
    omega (arith, length-set_channel i (λ (c : Channel). record c { format = v }) s.chans)
group_step-IsRoomy (channel_removed i) s h = ground (arith, length-remove_channel i s.chans)
group_step-IsRoomy channel_added s h = ground (arith, length-append s.chans (blank_channel ∷ []))

group_run-IsRoomy : (es : List GroupEvent) (s : GroupDialog) → IsRoomy s → IsRoomy (group_run es s)
unfolding group_run
group_run-IsRoomy [] s h = h
group_run-IsRoomy (e ∷ es) s h = group_run-IsRoomy es (group_step e s) (group_step-IsRoomy e s h)

-- The groups that the dialog can open: a new one, or one with sixteen channels at most.
abbrev pub IsOpenable : Option Group → Type 0
IsOpenable none = Unit
IsOpenable (some g) = length g.channels ≤ 16

open_group-IsRoomy : (o : Option Group) → IsOpenable o → IsRoomy (open_group o)
unfolding open_group
open_group-IsRoomy none h = omega arith
open_group-IsRoomy (some g) h = ground arith

length-sent_channels : (cs : List Channel) → length (sent_channels cs) ≤ length cs
unfolding sent_channels
length-sent_channels [] = omega arith
length-sent_channels (c ∷ cs) = ground (arith, length-sent_channels cs)

-- Whether all rows are blank.
abbrev pub all_blank : List Channel → Bool
all_blank cs = all (λ (c : Channel). is_empty (trim c.url)) cs

sent_channels-all_blank : (cs : List Channel) → leb (length (sent_channels cs)) 0 ≡ all_blank cs
unfolding sent_channels
sent_channels-all_blank [] = refl
sent_channels-all_blank (c ∷ cs) = ground (arith, sent_channels-all_blank cs)

cfg_key_re-is_empty : (k : Text) → cfg_key_re k ≡ true → is_empty k ≡ false
unfolding cfg_key_re
cfg_key_re-is_empty k h = ground arith

-- The complaint of a roomy dialog with a legal name.
save_roomy :
    (s : GroupDialog)
    → IsRoomy s
    → cfg_key_re (group_name s) ≡ true
    → length (group_name s) ≤ 128
    → save_dialog s ≡ bad_channels ↔ all_blank s.chans ≡ true
unfolding save_dialog
save_roomy s h c l =
    let few : ltb 16 (length (sent_channels s.chans)) ≡ false =
      ground (arith, length-sent_channels s.chans) in
    let short : ltb 128 (length (group_name s)) ≡ false = ground arith in
    rw (c, cfg_key_re-is_empty (group_name s) c, short, few, sent_channels-all_blank s.chans)
      (ground arith)

-- For a new group or one with sixteen channels at most, after any events in the dialog: where the name
-- that is kept is legal, saving complains of the channels exactly when no row has an address, and
-- so never for having too many.
pub save_dialog-bad_channels :
    (o : Option Group) (es : List GroupEvent)
    → IsOpenable o
    → let s = group_run es (open_group o) in
      cfg_key_re (group_name s) ≡ true
      → length (group_name s) ≤ 128
      → save_dialog s ≡ bad_channels ↔ all_blank s.chans ≡ true
save_dialog-bad_channels o es h c l =
    save_roomy (group_run es (open_group o))
      (group_run-IsRoomy es (open_group o) (open_group-IsRoomy o h)) c l

-- A channel as it is saved: its address is trimmed, not blank, and of a legal form.
abbrev pub IsSendable : Channel → Type 0
IsSendable c = (trim c.url ≡ c.url) × (is_empty c.url ≡ false) × (notify_re c.url ≡ true)

sent_channels-IsSendable : (cs : List Channel) → All IsSendable cs → sent_channels cs ≡ cs
unfolding sent_channels
sent_channels-IsSendable [] h = refl
sent_channels-IsSendable (c ∷ cs) h =
    rw (h.0.0, h.0.1) (ap (λ (l : List Channel). c ∷ l) (sent_channels-IsSendable cs h.1))

any-IsSendable :
    (cs : List Channel)
    → All IsSendable cs
    → any (λ (c : Channel). not (notify_re c.url)) cs ≡ false
any-IsSendable [] h = refl
any-IsSendable (c ∷ cs) h = rw h.0.2 (any-IsSendable cs h.1)

-- A group with a legal name and from one to sixteen channels, each as it is saved, is sent unchanged
-- by a dialog that is opened on it and saved at once.
save_dialog-open_group :
    (g : Group)
    → cfg_key_re g.name ≡ true
    → length g.name ≤ 128
    → 1 ≤ length g.channels
    → length g.channels ≤ 16
    → All IsSendable g.channels
    → save_dialog (open_group (some g)) ≡ save_group g
unfolding save_dialog open_group group_name
save_dialog-open_group g c l one few h =
    let some_rows : leb (length g.channels) 0 ≡ false = ground arith in
    let short : ltb 128 (length g.name) ≡ false = ground arith in
    let fits : ltb 16 (length g.channels) ≡ false = ground arith in
    rw
      (
        some_rows,
        sent_channels-IsSendable g.channels h,
        c,
        cfg_key_re-is_empty g.name c,
        short,
        some_rows,
        fits,
        any-IsSendable g.channels h,
      )
      refl
