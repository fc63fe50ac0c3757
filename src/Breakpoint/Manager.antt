-- ===== src/Breakpoint/Manager.antt =====
-- Sources/Core/BreakpointManager.cpp. The virtual methods that the subclasses implement are a record,
-- and `rest` is what a subclass keeps beside the sites.
use ds.Base.{
  ℕ, ◌+◌, ◌-◌, Bool, true, false, not, Option, none, some, [], ◌∷◌, ◌==◌, if◌then◌else◌, ◌>>=◌,
}
use ds.Errors.{ErrorCode, success, invalid_argument, not_found}
use ds.Breakpoint.Sites.{
  Lifetime, join, is_none, is_permanent, Address, unset, at, Site, Sites, find, store, erase,
}

-- A returned error code; `indeterminate` is a variable that no statement has set.
pub data Returned : Type 0 where
  code : ErrorCode → Returned
  indeterminate : Returned

-- `none` is a failed assertion or DS2BUG. The thread argument is nullptr here.
pub record Methods (R : Type 0) : Type 0 where
  pub is_valid : Address → ℕ → ℕ → Option ErrorCode
  pub choose_size : Option ℕ
  pub enabled : R → Bool
  pub enable_location : Sites → R → Site → Option (R × Returned)
  pub disable_location : Sites → R → Site → Option (R × Returned)

-- BreakpointManager::isValid.
unfoldable pub base_is_valid : Address → ErrorCode
base_is_valid unset = invalid_argument
base_is_valid (at a) = success

pub record Manager (R : Type 0) : Type 0 where
  pub sites : Sites
  pub rest : R

-- The site exists: the lifetimes are joined, and the references counted.
unfoldable pub again : {R : Type 0} → Manager R → ℕ → Lifetime → ℕ → Site → Manager R × Returned
again m a lifetime mode site = if not (site.mode == mode) then (m, code invalid_argument) else (
  record m {
    sites =
        store a
          (record site {
            lifetime = join site.lifetime lifetime;
            refs = if is_permanent lifetime then site.refs + 1 else site.refs;
          })
          m.sites;
  },
  code success,
)

unfoldable pub new_site : ℕ → Lifetime → ℕ → ℕ → Site
new_site a lifetime size mode = record {
  refs = if is_permanent lifetime then 1 else 0;
  address = a;
  lifetime = lifetime;
  mode = mode;
  size = size;
}

unfoldable pub clear : {R : Type 0} → Manager R → Manager R
clear m = record m { sites = [] }

-- Address::value, which is 0 for an unset address.
unfoldable pub value : Address → ℕ
value unset = 0
value (at a) = a

unfoldable pub has : {R : Type 0} → Manager R → Address → Bool
has m unset = false
has m (at a) = elim (find a m.sites) [ none ↦ false | some site ↦ true ]

-- enumerate with the callback that enables or disables each site; what it returns is ignored.
unfoldable pub each : {R : Type 0} → (R → Site → Option (R × Returned)) → Sites → R → Option R
each f [] r = some r
each f ((k, s) ∷ m) r = do (r', result) ← f r s; each f m r'

-- The sites without the one-shot flag; those whose lifetime is then None go, and must have no
-- references.
unfoldable pub expire_site : ℕ → Site → Sites → Option Sites
expire_site k s rest =
    let s' = record s { lifetime = record s.lifetime { one_shot = false } } in
    if not (is_none s'.lifetime)
    then some ((k, s') ∷ rest)
    else if s.refs == 0
    then some rest
    else none

unfoldable pub expire : Sites → Option Sites
unfolding expire_site
expire [] = some []
expire ((k, s) ∷ m) = do rest ← expire m; expire_site k s rest

-- The site as it is after the hit.
unfoldable pub hit : {R : Type 0} → Manager R → Address → Manager R × Option Site
hit m unset = (m, none)
hit m (at a) = elim (find a m.sites) [
  | none ↦ (m, none)
  | some site ↦
      let site' = record site { lifetime = record site.lifetime { until_hit = false } } in
      (record m { sites = store a site' m.sites }, some site')
]

module _ {R : Type 0} (methods : Methods R) where
  open methods use {is_valid, choose_size, enabled, enable_location, disable_location}

  -- A new site is stored first, and enabled if the manager is.
  unfoldable pub fresh : Manager R → Site → Option (Manager R × Returned)
  fresh m site =
      let sites = store site.address site m.sites in
      let enabling = (do
        (r, result) ← enable_location sites m.rest site
        some (record { sites = sites; rest = r }, result)) in
      if enabled m.rest then enabling else some (record m { sites = sites }, code success)

  unfoldable pub add_at : Manager R → ℕ → Lifetime → ℕ → ℕ → Option (Manager R × Returned)
  unfolding again new_site fresh
  add_at m a lifetime size mode = elim (find a m.sites) [
    | some site ↦ some (again m a lifetime mode site)
    | none ↦ fresh m (new_site a lifetime size mode)
  ]

  -- A size of 0 is replaced by the subclass's choice.
  unfoldable pub chosen : ℕ → Option ℕ
  chosen size = if size == 0 then choose_size else some size

  unfoldable pub add_valid :
      ErrorCode → Manager R → Address → Lifetime → ℕ → ℕ → Option (Manager R × Returned)
  unfolding add_at value chosen
  add_valid success m address lifetime size mode = do
    size' ← chosen size
    add_at m (value address) lifetime size' mode
  add_valid error m address lifetime size mode = some (m, code error)

  unfoldable pub add : Manager R → Address → Lifetime → ℕ → ℕ → Option (Manager R × Returned)
  unfolding add_valid
  add m address lifetime size mode = do
    valid ← is_valid address size mode
    add_valid valid m address lifetime size mode

  -- From the label do_remove on.
  unfoldable pub do_remove : Manager R → ℕ → Site → Option (Manager R × Returned)
  do_remove m a site =
      let disabling = (do
        (r, result) ← disable_location m.sites m.rest site
        some (record { sites = erase a m.sites; rest = r }, result)) in
      if not (site.refs == 0)
      then none
      else if enabled m.rest
      then disabling
      else some (record m { sites = erase a m.sites }, code success)

  unfoldable pub remove_site : Manager R → ℕ → Site → Option (Manager R × Returned)
  unfolding do_remove
  remove_site m a site =
      let site' = record site { refs = site.refs - 1 } in
      if not site.lifetime.permanent
      then do_remove m a site
      else if site.refs == 0
      then none
      else if not (site'.refs == 0)
      then some (record m { sites = store a site' m.sites }, code success)
      else if is_permanent site.lifetime
      then do_remove (record m { sites = store a site' m.sites }) a site'
      else some (
        record m {
          sites =
              store a (record site' { lifetime = record site.lifetime { permanent = false } })
                m.sites;
        },
        code success,
      )

  unfoldable pub remove : Manager R → Address → Option (Manager R × Returned)
  unfolding remove_site
  remove m unset = some (m, code invalid_argument)
  remove m (at a) = elim (find a m.sites) [
    | none ↦ some (m, code not_found)
    | some site ↦ remove_site m a site
  ]

  unfoldable pub enable : Manager R → Option (Manager R)
  unfolding each
  enable m = do r ← each (enable_location m.sites) m.sites m.rest; some (record m { rest = r })

  unfoldable pub disable : Manager R → Option (Manager R)
  unfolding each expire
  disable m = do
    r ← each (disable_location m.sites) m.sites m.rest
    sites ← expire m.sites
    some (record { sites = sites; rest = r })
