-- ===== src/Files/Samples.antt =====
-- A session of the files page: it is restored, its folder is listed, renamed, and files are dropped.
use mysyncfiles.Prelude.{
  ◌≡◌, refl, sym, subst, true, false, some, List, [], ◌∷◌, Text, codes, text_eq, Memᴰ, utf8_length,
  has_unit, is_any,
}
use mysyncfiles.Value.{
  Value, obj, prop, str, num, pos, null, bool, arr, cons, nil, end, get, safe_nat, as_text, is_text,
  is_null, is_nullish, is_number, is_safe_integer, truthy, items, digest_text,
}
use mysyncfiles.Exit.{ok}
use mysyncfiles.Http.{reply, body_of, field, optional}
use mysyncfiles.Prog.{modify}
use mysyncfiles.Prog.Threads.{System, here, next, start as starts, resumed, settle}
use mysyncfiles.Files.State.{Query, Page, blank, lock, is_aborted, can_upload}
use mysyncfiles.Files.Calls.{Call, Reply, get_entries, get_directory, answer, value_of}
use mysyncfiles.Files.Listing.{listing_of, query_of, may_rename, at_least, at_most}
use mysyncfiles.Files.Selection.{show_listing}
use mysyncfiles.Files.Load.{load}
use mysyncfiles.Files.Browse.{on_shown, directory_info}
use mysyncfiles.Files.Access.{restore}
use mysyncfiles.Files.Upload.{LocalFile}
use mysyncfiles.Files.Folder.{submit}
use mysyncfiles.Files.Menu.{Action, open_menu, menu_clicked}
use mysyncfiles.Files.Drop.{drop_files}
use mysyncfiles.Files.Fits.{Server, Serves}
use mysyncfiles.Files.Reachable.{
  initial, Reaches, restored, locked, menu_opened, menu_used, folder_submitted, dropped,
}

abbrev pub folder : Value
folder = obj (
    prop "kind" (str (codes "directory")) (prop "path" (str (codes "docs")) (prop "size" null end)))

abbrev opened : Value
opened = obj (
    prop "expires_at" (num (pos 2000)) (
      prop "device_name" (str (codes "pc")) (
        prop "chunk_bytes" (num (pos 8388608)) (
          prop "download_limit" (num (pos 268435456))
            (prop "upload_limit" (num (pos 268435456)) (prop "manage_limit" (bool true) end))))))

abbrev pub answered : Value
answered = obj (prop "entries" (arr (cons folder nil)) (prop "next" null end))

abbrev pub snapshot : Text
snapshot = codes "0123456789abcdef0123456789abcdef0123456789abcdef0123456789abcdef"

-- The server serves one folder, with its snapshot.
abbrev pub account : Server
account = record {
  listing = λ q entries. entries ≡ folder ∷ [];
  snapshot = λ path v. (text_eq (codes "docs") path ≡ true) × (v ≡ str snapshot);
}

abbrev properties : Value
properties = obj (
    prop "path" (str (codes "docs")) (
      prop "size" (num (pos 9)) (
        prop "file_count" (num (pos 2))
          (prop "updated_at" (num (pos 5)) (prop "snapshot" (str snapshot) end)))))

abbrev State : Type 0
State = System Call Reply Page

-- The last thread goes on with a body.
abbrev play : Value → State → State
play v y = elim y.pool [
  | [] ↦ y
  | t ∷ rest ↦
      settle ((t.pending, answer (reply 200 v)) ∷ t.history)
        (t.resume (answer (reply 200 v)) y.state) rest y.made
]

abbrev pub asking : State
asking = play opened (settle [] (restore 0 [] initial) [] [])

abbrev pub listed : State
listed = play answered asking

abbrev pub locked_page : State
locked_page = settle [] (modify (lock (codes "expired") []) listed.state) listed.pool listed.made

abbrev menu : State
menu = settle [] (modify (on_shown (open_menu false folder)) listed.state) listed.pool listed.made

abbrev renaming : State
renaming = settle [] (menu_clicked true Action.renaming menu.state) menu.pool menu.made

abbrev informed : State
informed = play properties renaming

abbrev submitted : State
submitted = settle [] (submit (codes "notes") informed.state) informed.pool informed.made

abbrev pub changing : State
changing = play (obj end) submitted

abbrev local_files : List LocalFile
local_files = record { name = codes "a.txt"; content = 1 ∷ 2 ∷ 3 ∷ [] } ∷ []

abbrev pub uploading : State
uploading =
    settle [] (drop_files false false false local_files listed.state) listed.pool listed.made

-- What a run of the session computes with.
unfoldable pub computed : Unit {0}
unfolding restore load show_listing listing_of menu_clicked open_menu on_shown submit drop_files
    lock body_of value_of field get optional as_text is_text is_null is_nullish is_number
    is_safe_integer truthy items digest_text safe_nat text_eq utf8_length has_unit blank query_of
    can_upload is_aborted directory_info may_rename at_least at_most is_any
computed = tt

abbrev first : Query
first = record { directory = []; search = []; after = some [] }

answered-Serves : (q : Query) → Serves account (get_entries q) (answer (reply 200 answered))
unfolding computed
answered-Serves q v entries cursor valued accepted =
    let same : answered ≡ v = cc in
    let known : listing_of answered ≡ ok (entries, cursor) =
      subst (λ x. listing_of x ≡ ok (entries, cursor)) (sym same) accepted in
    cc

pub asking-IsReached : Reaches account asking
unfolding computed
asking-IsReached =
    next (next here (starts (restore 0 []) initial [] [] (restored 0 [] initial)))
      (resumed _ [] [] _ _ (answer (reply 200 opened)) tt)

pub listed-IsReached : Reaches account listed
unfolding computed
listed-IsReached = next asking-IsReached (
    resumed _ [] [] _ _ (answer (reply 200 answered))
      (λ v entries cursor valued accepted. answered-Serves first v entries cursor valued accepted))

pub locked_page-IsReached : Reaches account locked_page
unfolding computed
locked_page-IsReached = next listed-IsReached (
    starts (modify (lock (codes "expired") [])) listed.state listed.pool listed.made
      (locked (codes "expired") [] listed.state))

menu-IsReached : Reaches account menu
unfolding computed
menu-IsReached = next listed-IsReached (
    starts (modify (on_shown (open_menu false folder))) listed.state listed.pool listed.made
      (menu_opened false folder listed.state (Memᴰ.head refl)))

renaming-IsReached : Reaches account renaming
unfolding computed
renaming-IsReached = next menu-IsReached (
    starts (menu_clicked true Action.renaming) menu.state menu.pool menu.made
      (menu_used true Action.renaming menu.state))

properties-Serve : Serves account (get_directory (codes "docs")) (answer (reply 200 properties))
unfolding computed
properties-Serve v p valued named =
    let same : properties ≡ v = cc in
    subst (λ x. is_text (optional "path" x) p ≡ true → account.snapshot p (optional "snapshot" x))
      same (λ h. (h, refl)) named

informed-IsReached : Reaches account informed
unfolding computed
informed-IsReached = next renaming-IsReached (
    resumed _ [] [] _ _ (answer (reply 200 properties))
      (λ v p valued named. properties-Serve v p valued named))

submitted-IsReached : Reaches account submitted
unfolding computed
submitted-IsReached = next informed-IsReached (
    starts (submit (codes "notes")) informed.state informed.pool informed.made
      (folder_submitted (codes "notes") informed.state))

pub changing-IsReached : Reaches account changing
unfolding computed
changing-IsReached =
    next submitted-IsReached (resumed _ [] [] _ _ (answer (reply 200 (obj end))) tt)

pub uploading-IsReached : Reaches account uploading
unfolding computed
uploading-IsReached = next listed-IsReached (
    starts (drop_files false false false local_files) listed.state listed.pool listed.made
      (dropped false false local_files listed.state))
