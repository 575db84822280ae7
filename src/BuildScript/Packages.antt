-- ===== src/BuildScript/Packages.antt =====
-- The packages of build.go: createDebPackages, createRpmPackages, createMinTar and createFpmPackage.
pub mod Staged
pub mod Shipped
use Prim.Native.String
use syncflux.Prelude.{String, true, false, List, [], ◌∷◌, ◌++◌, str_eq, if◌then◌else◌}
use syncflux.Go.{ret, Action, Result, ok, err, pure, ◌>>=◌, ◌>>◌}
use syncflux.Go.Text.{concat}
use syncflux.Go.Strings.{join}
use syncflux.BuildScript.{Globals, System, each, step, run_print, run_error}

-- linuxPackageOptions.
pub record LinuxPackageOptions : Type 0 where
  pub package_type : String
  pub home_dir : String
  pub bin_path : String
  pub config_dir : String
  pub config_file_path : String
  pub etc_default_path : String
  pub etc_default_file_path : String
  pub initd_script_file_path : String
  pub systemd_service_file_path : String
  pub postinst_src : String
  pub initd_script_src : String
  pub default_file_src : String
  pub systemd_file_src : String
  pub depends : List String

-- The options in createDebPackages.
unfoldable pub deb_options : LinuxPackageOptions
deb_options = record {
  package_type = "deb";
  home_dir = "/usr/share/syncflux";
  bin_path = "/usr/sbin/syncflux";
  config_dir = "/etc/syncflux";
  config_file_path = "/etc/syncflux/syncflux.toml";
  etc_default_path = "/etc/default";
  etc_default_file_path = "/etc/default/syncflux";
  initd_script_file_path = "/etc/init.d/syncflux";
  systemd_service_file_path = "/usr/lib/systemd/system/syncflux.service";
  postinst_src = "packaging/deb/control/postinst";
  initd_script_src = "packaging/deb/init.d/syncflux";
  default_file_src = "packaging/deb/default/syncflux";
  systemd_file_src = "packaging/deb/systemd/syncflux.service";
  depends = "adduser" ∷ [];
}

-- The options in createRpmPackages.
unfoldable pub rpm_options : LinuxPackageOptions
rpm_options = record {
  package_type = "rpm";
  home_dir = "/usr/share/syncflux";
  bin_path = "/usr/sbin/syncflux";
  config_dir = "/etc/syncflux";
  config_file_path = "/etc/syncflux/syncflux.toml";
  etc_default_path = "/etc/sysconfig";
  etc_default_file_path = "/etc/sysconfig/syncflux";
  initd_script_file_path = "/etc/init.d/syncflux";
  systemd_service_file_path = "/usr/lib/systemd/system/syncflux.service";
  postinst_src = "packaging/rpm/control/postinst";
  initd_script_src = "packaging/rpm/init.d/syncflux";
  default_file_src = "packaging/rpm/sysconfig/syncflux";
  systemd_file_src = "packaging/rpm/systemd/syncflux.service";
  depends = "initscripts" ∷ [];
}

-- `packageRoot, _ := ioutil.TempDir(...)`: an error leaves the empty text.
unfoldable pub package_root_of : Result String → String
package_root_of (ok dir) = dir
package_root_of (err e) = ""

-- The arguments for the dependencies.
unfoldable pub depends_args : List String → List String
depends_args [] = []
depends_args (dep ∷ deps) = "--depends" ∷ dep ∷ depends_args deps

unfoldable pub iteration_args : String → List String
iteration_args iteration = if str_eq iteration "" then [] else "--iteration" ∷ iteration ∷ []

-- The arguments of fpm.
unfoldable pub fpm_args : Globals → LinuxPackageOptions → String → List String
unfolding depends_args iteration_args
fpm_args g options package_root =
    "-t"
    ∷ options.package_type
    ∷ "-s"
    ∷ "dir"
    ∷ "--description"
    ∷ "An InfluxDB data syncronization/Replication tool with HTTP admin API "
    ∷ "-C"
    ∷ package_root
    ∷ "--vendor"
    ∷ "syncflux"
    ∷ "--url"
    ∷ "http://github.org/toni-moreno/syncflux"
    ∷ "--license"
    ∷ "Apache 2.0"
    ∷ "--maintainer"
    ∷ "toni.moreno@gmail.com"
    ∷ "--config-files"
    ∷ options.config_file_path
    ∷ "--config-files"
    ∷ options.initd_script_file_path
    ∷ "--config-files"
    ∷ options.etc_default_file_path
    ∷ "--config-files"
    ∷ options.systemd_service_file_path
    ∷ "--after-install"
    ∷ options.postinst_src
    ∷ "--name"
    ∷ "syncflux"
    ∷ "--version"
    ∷ g.linux_package_version
    ∷ "-p"
    ∷ "./dist"
    ∷ (iteration_args g.linux_package_iteration ++ depends_args options.depends ++ "." ∷ [])

-- versionRe.ReplaceAllFunc is a parameter where the commit's name is needed.
module _ {W F H : Type 0} (system : System W F H) where
  -- `mkdir -p` of a directory of the package.
  abbrev pub make_dir : String → String → Action W Unit
  make_dir package_root dir = run_print system "mkdir" ("-p" ∷ join (package_root ∷ dir ∷ []) ∷ [])

  -- `cp -p` of a file into the package.
  abbrev pub copy_file : String → String → String → Action W Unit
  copy_file package_root src dst =
      run_print system "cp" ("-p" ∷ src ∷ join (package_root ∷ dst ∷ []) ∷ [])

  -- The directories of createFpmPackage.
  unfoldable pub create_directories : LinuxPackageOptions → String → List (Action W Unit)
  unfolding run_print
  create_directories options package_root =
      (make_dir package_root options.home_dir
        ∷ make_dir package_root options.config_dir
        ∷ make_dir package_root "/etc/init.d"
        ∷ make_dir package_root options.etc_default_path
        ∷ make_dir package_root "/usr/lib/systemd/system"
        ∷ make_dir package_root "/usr/sbin"
        ∷ [])

  -- The files of createFpmPackage.
  unfoldable pub copy_files : Globals → LinuxPackageOptions → String → List (Action W Unit)
  unfolding run_print
  copy_files g options package_root =
      (copy_file package_root (join (g.working_dir ∷ String.◌++◌ "bin/" g.server_binary_name ∷ []))
          options.bin_path
        ∷ copy_file package_root options.initd_script_src options.initd_script_file_path
        ∷ copy_file package_root options.default_file_src options.etc_default_file_path
        ∷ copy_file package_root options.systemd_file_src options.systemd_service_file_path
        ∷ run_print system "rm" ("-rf" ∷ join (package_root ∷ options.home_dir ∷ "bin" ∷ []) ∷ [])
        ∷ run_print system "cp"
            ("conf/sample.syncflux.toml" ∷ join (package_root ∷ options.config_file_path ∷ []) ∷ [])
        ∷ [])

  -- createFpmPackage.
  unfoldable pub create_fpm_package : Globals → LinuxPackageOptions → Action W Unit
  unfolding each create_directories copy_files package_root_of fpm_args run_print
  create_fpm_package g options w =
      let (r, w') = system.temp_dir "syncflux-linux-pack" w in
      let package_root = package_root_of r in
      (each (create_directories options package_root)
          >> each (copy_files g options package_root)
          >> run_print system "fpm" (fpm_args g options package_root))
        w'

  -- createDebPackages.
  unfoldable pub create_deb_packages : Globals → Action W Unit
  unfolding create_fpm_package deb_options
  create_deb_packages g = create_fpm_package g deb_options

  -- createRpmPackages.
  unfoldable pub create_rpm_packages : Globals → Action W Unit
  unfolding create_fpm_package rpm_options
  create_rpm_packages g = create_fpm_package g rpm_options

  -- createLinuxPackages.
  unfoldable pub create_linux_packages : Globals → Action W Unit
  unfolding create_deb_packages create_rpm_packages
  create_linux_packages g = create_deb_packages g >> create_rpm_packages g
