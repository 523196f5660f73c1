-- ===== src/Resources/Groups.antt =====
-- The dialog of an alert group: groupDialog of views.js, from its opening to its request.
use cronova.Base.{
  ℕ, zero, suc, not, ◌||◌, List, [], ◌∷◌, ◌++◌, map, keep, any, length, Option, none, some, Text,
  is_empty, trim, if◌then◌else◌, ltb, leb,
}
use cronova.Dag.Validate.{notify_re}
use cronova.Resources.Table.{Keyed}
use cronova.Resources.Vars.{cfg_key_re}

pub record Channel : Type 0 where
  pub url : Text
  pub format : Text

pub record Group : Type 0 where
  pub name : Text
  pub channels : List Channel

instance abbrev pub group_keyed : Keyed Group
group_keyed = record { key = λ (g : Group). g.name }

unfoldable pub blank_channel : Channel
blank_channel = record { url = []; format = [] }

-- The group that is edited, if one is, `nameVal` and `chans`.
pub record GroupDialog : Type 0 where
  pub editing : Option Text
  pub name_val : Text
  pub chans : List Channel

-- `AG_MAX_CHANNELS`
abbrev pub ag_max_channels : ℕ
ag_max_channels = 16

-- `groupDialog(group)`
unfoldable pub open_group : Option Group → GroupDialog
unfolding blank_channel
open_group none = record { editing = none; name_val = []; chans = blank_channel ∷ [] }
open_group (some g) = record {
  editing = some g.name;
  name_val = g.name;
  chans = if leb (length g.channels) 0 then blank_channel ∷ [] else g.channels;
}

-- `chans[i].url = v`, `chans[i].format = v`, `chans.splice(i, 1)`
unfoldable pub set_channel : ℕ → (Channel → Channel) → List Channel → List Channel
set_channel i f [] = []
set_channel zero f (c ∷ cs) = f c ∷ cs
set_channel (suc i) f (c ∷ cs) = c ∷ set_channel i f cs

unfoldable pub remove_channel : ℕ → List Channel → List Channel
remove_channel i [] = []
remove_channel zero (c ∷ cs) = cs
remove_channel (suc i) (c ∷ cs) = c ∷ remove_channel i cs

pub data GroupEvent : Type 0 where
  named : Text → GroupEvent
  url_typed : ℕ → Text → GroupEvent
  format_chosen : ℕ → Text → GroupEvent
  channel_removed : ℕ → GroupEvent
  channel_added : GroupEvent

-- The buttons: a lone row has its removal disabled, and a full dialog has no addition. The name of an
-- edited group is disabled.
unfoldable pub group_step : GroupEvent → GroupDialog → GroupDialog
unfolding set_channel remove_channel blank_channel
group_step (named v) s = elim s.editing [ none ↦ record s { name_val = v } | some g ↦ s ]
group_step (url_typed i v) s = record s {
  chans = set_channel i (λ (c : Channel). record c { url = v }) s.chans;
}
group_step (format_chosen i v) s = record s {
  chans = set_channel i (λ (c : Channel). record c { format = v }) s.chans;
}
group_step (channel_removed i) s =
    if leb (length s.chans) 1 then s else record s { chans = remove_channel i s.chans }
group_step channel_added s =
    if ltb (length s.chans) ag_max_channels
    then record s { chans = s.chans ++ blank_channel ∷ [] }
    else s

unfoldable pub group_run : List GroupEvent → GroupDialog → GroupDialog
unfolding group_step
group_run [] s = s
group_run (e ∷ es) s = group_run es (group_step e s)

pub data GroupSave : Type 0 where
  no_name bad_name bad_channels bad_url : GroupSave
  save_group : Group → GroupSave

-- `nm`
unfoldable pub group_name : GroupDialog → Text
unfolding trim
group_name s = elim s.editing [ some n ↦ n | none ↦ trim s.name_val ]

-- `list`
unfoldable pub sent_channels : List Channel → List Channel
unfolding trim
sent_channels cs =
    keep (λ (c : Channel). not (is_empty c.url))
      (map (λ (c : Channel). record c { url = trim c.url }) cs)

-- `save` up to its request
unfoldable pub save_dialog : GroupDialog → GroupSave
unfolding group_name sent_channels cfg_key_re
save_dialog s =
    let nm = group_name s in
    let sent = sent_channels s.chans in
    if is_empty nm
    then no_name
    else if not (cfg_key_re nm) || ltb 128 (length nm)
    then bad_name
    else if leb (length sent) 0 || ltb ag_max_channels (length sent)
    then bad_channels
    else if any (λ (c : Channel). not (notify_re c.url)) sent
    then bad_url
    else save_group (record { name = nm; channels = sent })
