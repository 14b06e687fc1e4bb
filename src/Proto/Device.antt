-- ===== src/Proto/Device.antt =====
-- Constants of airs/src/AstroDeviceDef.h and `check_imgtype` of airs/src/AsciiProtocol.cpp.
use airs.Base.{if◌then◌else◌}
use airs.Base.Int.{ℤ, pos, negsuc}
use airs.Base.Text.{Text, codes}
use airs.Host.{Host}

-- enum IMAGE_TYPE.
pub data ImageType : Type 0 where
  error bias dark flat object focus : ImageType

unfoldable number : ImageType → ℤ
number ImageType.error = pos 0
number ImageType.bias = pos 1
number ImageType.dark = pos 2
number ImageType.flat = pos 3
number ImageType.object = pos 4
number ImageType.focus = pos 5

abbrev pub imgtype_error : ℤ
imgtype_error = pos 0

-- CAMCTL_ERROR of enum CAMCTL_STATUS.
abbrev pub camctl_error : ℤ
camctl_error = pos 0

-- INT_MIN of <climits>, for a 32-bit int.
abbrev pub int_min : ℤ
int_min = negsuc 2147483647

-- The type of an image by its name, and the abbreviation that goes into a file name. The
-- abbreviation of the caller stays as it is when the name is unknown.
unfoldable check_imgtype : Host → Text → Text → ImageType × Text
check_imgtype h imgtype sabbr =
    if h.iequals imgtype (codes "bias")
    then (ImageType.bias, codes "bias")
    else if h.iequals imgtype (codes "dark")
    then (ImageType.dark, codes "dark")
    else if h.iequals imgtype (codes "flat")
    then (ImageType.flat, codes "flat")
    else if h.iequals imgtype (codes "object")
    then (ImageType.object, codes "objt")
    else if h.iequals imgtype (codes "focus")
    then (ImageType.focus, codes "focs")
    else (ImageType.error, sabbr)
