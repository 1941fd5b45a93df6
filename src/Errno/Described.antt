-- ===== src/Errno/Described.antt =====
-- The messages of lib/libc/string/strerror.c beside the comments of include/errno.h.
use Prim.Native.String.{String}
use trunix.Prelude.{◌≡◌, refl, some, Bool, true, false}
use trunix.Errno.{Errno, number}
use trunix.Errno.Message.{strerror}

-- What the header says of the error, behind its number.
unfoldable pub described : Errno → String
described Errno.e2big = "Argument list too long."
described Errno.eacces = "Permission denied."
described Errno.eaddrinuse = "Address in use."
described Errno.eaddrnotavail = "Address not available."
described Errno.eafnosupport = "Address family not supported."
described Errno.eagain = "Resource unavailable, try again."
described Errno.ealready = "Connection already in progress."
described Errno.ebadf = "Bad file descriptor."
described Errno.ebadmsg = "Bad message."
described Errno.ebusy = "Device or resource busy."
described Errno.ecanceled = "Operation canceled."
described Errno.echild = "No child processes."
described Errno.econnaborted = "Connection aborted."
described Errno.econnrefused = "Connection refused."
described Errno.econnreset = "Connection reset."
described Errno.edeadlk = "Resource deadlock would occur."
described Errno.edestaddrreq = "Destination address required."
described Errno.edom = "Mathematics argument out of domain of function."
described Errno.edquot = "Reserved."
described Errno.eexist = "File exists."
described Errno.efault = "Bad address."
described Errno.efbig = "File too large."
described Errno.ehostunreach = "Host is unreachable."
described Errno.eidrm = "Identifier removed."
described Errno.eilseq = "Illegal byte sequence."
described Errno.einprogress = "Operation in progress."
described Errno.eintr = "Interrupted function."
described Errno.einval = "Invalid argument."
described Errno.eio = "I/O error."
described Errno.eisconn = "Socket is connected."
described Errno.eisdir = "Is a directory."
described Errno.eloop = "Too many levels of symbolic links."
described Errno.emfile = "File descriptor value too large."
described Errno.emlink = "Too many links."
described Errno.emsgsize = "Message too large."
described Errno.emultihop = "Reserved."
described Errno.enametoolong = "Filename too long."
described Errno.enetdown = "Network is down."
described Errno.enetreset = "Connection aborted by network."
described Errno.enetunreach = "Network unreachable."
described Errno.enfile = "Too many files open in system."
described Errno.enobufs = "No buffer space available."
described Errno.enodata = "No message is available on the STREAM head read queue."
described Errno.enodev = "No such device."
described Errno.enoent = "No such file or directory."
described Errno.enoexec = "Executable file format error."
described Errno.enolck = "No locks available."
described Errno.enolink = "Reserved."
described Errno.enomem = "Not enough space."
described Errno.enomsg = "No message of the desired type."
described Errno.enoprotoopt = "Protocol not available."
described Errno.enospc = "No space left on device."
described Errno.enosr = "No STREAM resources."
described Errno.enostr = "Not a STREAM."
described Errno.enosys = "Functionality not supported."
described Errno.enotconn = "The socket is not connected."
described Errno.enotdir = "Not a directory or a symbolic link to a directory."
described Errno.enotempty = "Directory not empty."
described Errno.enotrecoverable = "State not recoverable."
described Errno.enotsock = "Not a socket."
described Errno.enotsup = "Not supported."
described Errno.enotty = "Inappropriate I/O control operation."
described Errno.enxio = "No such device or address."
described Errno.eopnotsupp = "Operation not supported on socket."
described Errno.eoverflow = "Value too large to be stored in data type."
described Errno.eownerdead = "Previous owner died."
described Errno.eperm = "Operation not permitted."
described Errno.epipe = "Broken pipe."
described Errno.eproto = "Protocol error."
described Errno.eprotonosupport = "Protocol not supported."
described Errno.eprototype = "Protocol wrong type for socket."
described Errno.erange = "Result too large."
described Errno.erofs = "Read-only file system."
described Errno.espipe = "Invalid seek."
described Errno.esrch = "No such process."
described Errno.estale = "Reserved."
described Errno.etime = "Stream ioctl() timeout."
described Errno.etimedout = "Connection timed out."
described Errno.etxtbsy = "Text file busy."
described Errno.ewouldblock = "Operation would block."
described Errno.exdev = "Cross-device link."

-- The errors whose messages are spelled in another way than in the header.
abbrev pub respelled : Errno → Bool
respelled Errno.eio = true
respelled Errno.enotty = true
respelled _ = false

-- For each error number `strerror` gives the message with which the header describes it, but for the
-- errors in whose message the header writes I/O, and strerror IO.
pub strerror-described :
    (e : Errno) → respelled e ≡ false → strerror (number e) ≡ some (described e)
unfolding strerror number described
strerror-described Errno.e2big h = refl
strerror-described Errno.eacces h = refl
strerror-described Errno.eaddrinuse h = refl
strerror-described Errno.eaddrnotavail h = refl
strerror-described Errno.eafnosupport h = refl
strerror-described Errno.eagain h = refl
strerror-described Errno.ealready h = refl
strerror-described Errno.ebadf h = refl
strerror-described Errno.ebadmsg h = refl
strerror-described Errno.ebusy h = refl
strerror-described Errno.ecanceled h = refl
strerror-described Errno.echild h = refl
strerror-described Errno.econnaborted h = refl
strerror-described Errno.econnrefused h = refl
strerror-described Errno.econnreset h = refl
strerror-described Errno.edeadlk h = refl
strerror-described Errno.edestaddrreq h = refl
strerror-described Errno.edom h = refl
strerror-described Errno.edquot h = refl
strerror-described Errno.eexist h = refl
strerror-described Errno.efault h = refl
strerror-described Errno.efbig h = refl
strerror-described Errno.ehostunreach h = refl
strerror-described Errno.eidrm h = refl
strerror-described Errno.eilseq h = refl
strerror-described Errno.einprogress h = refl
strerror-described Errno.eintr h = refl
strerror-described Errno.einval h = refl
strerror-described Errno.eio h = cc
strerror-described Errno.eisconn h = refl
strerror-described Errno.eisdir h = refl
strerror-described Errno.eloop h = refl
strerror-described Errno.emfile h = refl
strerror-described Errno.emlink h = refl
strerror-described Errno.emsgsize h = refl
strerror-described Errno.emultihop h = refl
strerror-described Errno.enametoolong h = refl
strerror-described Errno.enetdown h = refl
strerror-described Errno.enetreset h = refl
strerror-described Errno.enetunreach h = refl
strerror-described Errno.enfile h = refl
strerror-described Errno.enobufs h = refl
strerror-described Errno.enodata h = refl
strerror-described Errno.enodev h = refl
strerror-described Errno.enoent h = refl
strerror-described Errno.enoexec h = refl
strerror-described Errno.enolck h = refl
strerror-described Errno.enolink h = refl
strerror-described Errno.enomem h = refl
strerror-described Errno.enomsg h = refl
strerror-described Errno.enoprotoopt h = refl
strerror-described Errno.enospc h = refl
strerror-described Errno.enosr h = refl
strerror-described Errno.enostr h = refl
strerror-described Errno.enosys h = refl
strerror-described Errno.enotconn h = refl
strerror-described Errno.enotdir h = refl
strerror-described Errno.enotempty h = refl
strerror-described Errno.enotrecoverable h = refl
strerror-described Errno.enotsock h = refl
strerror-described Errno.enotsup h = refl
strerror-described Errno.enotty h = cc
strerror-described Errno.enxio h = refl
strerror-described Errno.eopnotsupp h = refl
strerror-described Errno.eoverflow h = refl
strerror-described Errno.eownerdead h = refl
strerror-described Errno.eperm h = refl
strerror-described Errno.epipe h = refl
strerror-described Errno.eproto h = refl
strerror-described Errno.eprotonosupport h = refl
strerror-described Errno.eprototype h = refl
strerror-described Errno.erange h = refl
strerror-described Errno.erofs h = refl
strerror-described Errno.espipe h = refl
strerror-described Errno.esrch h = refl
strerror-described Errno.estale h = refl
strerror-described Errno.etime h = refl
strerror-described Errno.etimedout h = refl
strerror-described Errno.etxtbsy h = refl
strerror-described Errno.ewouldblock h = refl
strerror-described Errno.exdev h = refl
