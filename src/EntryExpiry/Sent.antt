-- ===== src/EntryExpiry/Sent.antt =====
-- The expiry time on its way from the choice through the store into the request of the form that
-- creates entries (frontend/src/components/entry-create.tsx).
use tornjak.Prelude.{◌≡◌, sym, subst, Bool, true, false, Option, some, ℤ, List, All, if◌then◌else◌}
use tornjak.Js.{Text}
use tornjak.Store.Actions.{entry_expiry}
use tornjak.Store.Reducers.{RootState}
use tornjak.Store.Registers.{read}
use tornjak.EntryCreate.State.{Props, State, NewEntry}
use tornjak.EntryCreate.Submit.{new_entry, on_submit}
use tornjak.EntryCreate.Submit.Laws.{on_submit_iff}
use tornjak.EntryExpiry.Form
use tornjak.EntryExpiry.Safety.{Reach, start, IsSafe, expires_at-IsSafe}
use tornjak.EntryExpiry.HandOver.{Step, Run, mount, update, option, typed, date, time, read-Run}

-- What `mapStateToProps` of the form takes from the store here.
abbrev pub with_expiry : RootState → Props → Props
with_expiry store props = record props { global_entry_expiry_time = read entry_expiry store }

-- Every entry that the form sends has the time of the choice beside it, if the user has touched the
-- choice; otherwise it has the time that the store held before the choice was mounted.
pub on_submit-Run :
    (moment : Text → Option ℤ) (before : RootState) (touched : Bool) (s : Form.State)
    (store : RootState) (props : Props) (form : State) (uri : Text) (sent : List NewEntry)
    → Run moment before touched s store
    → (on_submit (with_expiry store props) form).request ≡ some (uri, sent)
    → All
        (λ (e : NewEntry).
          e.expires_at ≡ (if touched then s.expires_at else read entry_expiry before))
        sent
unfolding new_entry
on_submit-Run moment before touched s store props form uri sent r h =
    let one = ((on_submit_iff (with_expiry store props) form uri sent).0 h).2 in
    subst (All _) (sym one) (read-Run moment before touched s store r, tt)

Reach_of_Step :
    (moment : Text → Option ℤ) (s t : Form.State)
    → Step moment s t
    → Reach moment s
    → Reach moment t
Reach_of_Step moment s _ (option item) r = Reach.option item r
Reach_of_Step moment s _ (typed value) r = Reach.typed value r
Reach_of_Step moment s _ (date value) r = Reach.date value r
Reach_of_Step moment s _ (time value) r = Reach.time value r

Reach_of_Run :
    (moment : Text → Option ℤ) (before : RootState) (touched : Bool) (s : Form.State)
    (store : RootState)
    → Run moment before touched s store
    → Reach moment s
Reach_of_Run moment before _ _ _ mount = start
Reach_of_Run moment before _ _ _ (update {touched = b} {s = s} {t = t} {store = store} r step) =
    Reach_of_Step moment s t step (Reach_of_Run moment before b s store r)

-- Once the user has touched the choice and it shows no warning, every entry that the form sends has
-- no expiry or a positive time that a date can represent.
pub on_submit-IsSafe :
    (moment : Text → Option ℤ) (before : RootState) (s : Form.State) (store : RootState)
    (props : Props) (form : State) (uri : Text) (sent : List NewEntry)
    → Run moment before true s store
    → s.expiry_unsafe ≡ false
    → (on_submit (with_expiry store props) form).request ≡ some (uri, sent)
    → All (λ (e : NewEntry). IsSafe e.expires_at) sent
unfolding new_entry
on_submit-IsSafe moment before s store props form uri sent r safe h =
    let one = ((on_submit_iff (with_expiry store props) form uri sent).0 h).2 in
    let held = read-Run moment before true s store r in
    let shown = expires_at-IsSafe moment s (Reach_of_Run moment before true s store r) safe in
    subst (All _) (sym one) (subst IsSafe (sym held) shown, tt)
